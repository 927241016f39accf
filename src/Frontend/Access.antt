-- ===== src/Frontend/Access.antt =====
-- The contract calls of frontend/src/api.ts and the configuration that they use, frontend/src/config.ts.
-- What the RPC server answers to a simulated transaction is a parameter; so is the conversion
-- of its values, by taking them converted.
pub mod Validation
mod Examples
use cosmosvote.Prelude.{
  ℕ, ℤ, Option, none, some, Bool, false, not, ◌||◌, List, [], ◌∷◌, ◌++◌, JsString, js, truthy,
  lookup, to_decimal, of_decimal, nullish, or_else, starts_with, ◌==◌, if◌then◌else◌, length,
  Result, ok, throws, ◌>>=◌, ◌>>◌,
}
use cosmosvote.Frontend.Proposals.{VoteType, yes, no, abstain}

pub record NetworkConfig : Type 0 where
  pub rpc_url : JsString
  pub network_passphrase : JsString
  pub governance_contract_id : JsString
  pub token_contract_id : JsString
  pub treasury_contract_id : JsString

-- The build's variables.
pub record Environment : Type 0 where
  pub governance_contract_id : Option JsString
  pub token_contract_id : Option JsString
  pub treasury_contract_id : Option JsString
  pub network : Option JsString

-- `NETWORKS`
pub networks : Environment → List (JsString × NetworkConfig)
networks env =
    (
      js "testnet",
      record {
        rpc_url = js "https://soroban-testnet.stellar.org";
        network_passphrase = js "Test SDF Network ; September 2015";
        governance_contract_id = or_else env.governance_contract_id [];
        token_contract_id = or_else env.token_contract_id [];
        treasury_contract_id = or_else env.treasury_contract_id [];
      },
    )
    ∷ (
      js "mainnet",
      record {
        rpc_url = js "https://soroban-mainnet.stellar.org";
        network_passphrase = js "Public Global Stellar Network ; September 2015";
        governance_contract_id = or_else env.governance_contract_id [];
        token_contract_id = or_else env.token_contract_id [];
        treasury_contract_id = or_else env.treasury_contract_id [];
      },
    )
    ∷ []

pub active_network : Environment → JsString
active_network env = or_else env.network (js "testnet")

-- `NETWORKS[ACTIVE_NETWORK] ?? NETWORKS.testnet`
pub config_of : Environment → Option NetworkConfig
unfolding networks active_network
config_of env =
    nullish (lookup (active_network env) (networks env)) (lookup (js "testnet") (networks env))

pub explorer_table : List (JsString × JsString)
explorer_table =
    (js "testnet", js "https://stellar.expert/explorer/testnet")
    ∷ (js "mainnet", js "https://stellar.expert/explorer/public")
    ∷ []

pub explorer_base : Environment → JsString
unfolding active_network explorer_table
explorer_base env =
    or_else (lookup (active_network env) explorer_table)
      (js "https://stellar.expert/explorer/testnet")

pub explorer_account_url : Environment → JsString → JsString
unfolding explorer_base
explorer_account_url env address = explorer_base env ++ js "/account/" ++ address

pub explorer_tx_url : Environment → JsString → JsString
unfolding explorer_base
explorer_tx_url env hash = explorer_base env ++ js "/tx/" ++ hash

-- The test of one identifier in `validateConfig`.
pub is_bad_id : JsString → Bool
is_bad_id id = not (truthy id) || not (starts_with id (js "C")) || not (length id == 56)

pub id_error : JsString → JsString → List JsString
unfolding is_bad_id
id_error id message = if is_bad_id id then message ∷ [] else []

pub governance_message : JsString
governance_message =
    js
      "VITE_GOVERNANCE_CONTRACT_ID must be a valid Stellar contract ID (starts with C, 56 characters)."

pub token_message : JsString
token_message =
    js "VITE_TOKEN_CONTRACT_ID must be a valid Stellar contract ID (starts with C, 56 characters)."

-- The messages, one to a line, that `validateConfig` throws.
pub join_lines : List JsString → JsString
join_lines [] = []
join_lines (s ∷ []) = s
join_lines (s ∷ t ∷ ss) = s ++ 10 ∷ join_lines (t ∷ ss)

pub thrown_errors : List JsString → Result JsString (Unit {0})
unfolding join_lines
thrown_errors [] = ok tt
thrown_errors (s ∷ ss) = throws (js "Configuration Error:" ++ 10 ∷ join_lines (s ∷ ss))

pub validate_config : NetworkConfig → Result JsString (Unit {0})
unfolding id_error governance_message token_message thrown_errors
validate_config config = thrown_errors (
    id_error config.governance_contract_id governance_message
    ++ id_error config.token_contract_id token_message)

-- The arguments that `nativeToScVal` makes.
pub data ScVal : Type 0 where
  address : JsString → ScVal
  string : JsString → ScVal
  u64 u32 : ℕ → ScVal
  i128 : ℤ → ScVal
  vec : List JsString → ScVal

-- A transaction with one contract call.
pub record Transaction : Type 0 where
  pub source : JsString
  pub sequence : ℕ
  pub fee : ℕ
  pub network_passphrase : JsString
  pub contract : JsString
  pub function : JsString
  pub args : List ScVal
  pub timeout : ℕ

pub build_tx : NetworkConfig → JsString → JsString → JsString → List ScVal → Transaction
build_tx config sender contract_id method args = record {
  source = sender;
  sequence = 0;
  fee = 100;
  network_passphrase = config.network_passphrase;
  contract = contract_id;
  function = method;
  args = args;
  timeout = 30;
}

-- What a simulation returns, converted.
pub data Native : Type 0 where
  number : ℕ → Native
  boolean : Bool → Native
  text : JsString → Native
  nothing : Native

-- The server and the library: a simulation throws, or answers with a value of the library's or without;
-- such a value is converted, or written into a template.
pub record Server (V : Type 0) : Type 0 where
  pub simulate : Transaction → Result JsString (Option V)
  pub to_native : V → Native
  pub to_text : V → JsString

abbrev pub dummy_account : JsString
dummy_account = js "GAAZI4TCR3TY5OJHCTJC2A4QSY6CJWJH5IAJTGKIN2ER7LBNVKOCCWN"

pub result_or : {V : Type 0} → JsString → Option V → Result JsString V
result_or message none = throws message
result_or message (some value) = ok value

pub simulate_call :
    {V : Type 0}
    → NetworkConfig
    → Server V
    → JsString
    → JsString
    → List ScVal
    → Result JsString Native
unfolding build_tx result_or
simulate_call config server contract_id method args = do
  answer ← server.simulate (build_tx config dummy_account contract_id method args)
  value ← result_or (js "Simulation failed for " ++ method) answer
  ok (server.to_native value)

-- `result ? String(result) : null` of a delegation, which is an address or null.
pub delegate_of : Native → Option JsString
delegate_of (text s) = if truthy s then some s else none
delegate_of (number n) = if n == 0 then none else some (to_decimal n)
delegate_of (boolean b) = if b then some (js "true") else none
delegate_of nothing = none

pub value_or_null : Result JsString Native → Option JsString
unfolding delegate_of
value_or_null (ok value) = delegate_of value
value_or_null (throws e) = none

pub fetch_delegation : {V : Type 0} → NetworkConfig → Server V → JsString → Option JsString
unfolding simulate_call value_or_null
fetch_delegation config server owner = value_or_null (
    simulate_call config server config.token_contract_id (js "get_delegation") (address owner ∷ []))

-- `Boolean(result)`
pub boolean_of : Native → Bool
boolean_of (text s) = truthy s
boolean_of (number n) = not (n == 0)
boolean_of (boolean b) = b
boolean_of nothing = false

pub fetch_has_voted : {V : Type 0} → NetworkConfig → Server V → ℕ → JsString → Result JsString Bool
unfolding simulate_call boolean_of
fetch_has_voted config server proposal_id voter = do
  value ←
      simulate_call config server config.governance_contract_id (js "has_voted")
        (u64 proposal_id ∷ address voter ∷ [])
  ok (boolean_of value)

pub vote_enum : VoteType → ℕ
vote_enum yes = 0
vote_enum no = 1
vote_enum abstain = 2

pub cast_vote_tx : NetworkConfig → JsString → ℕ → VoteType → Transaction
unfolding vote_enum
cast_vote_tx config wallet_address proposal_id vote = record {
  source = wallet_address;
  sequence = 0;
  fee = 100;
  network_passphrase = config.network_passphrase;
  contract = config.governance_contract_id;
  function = js "cast_vote";
  args = address wallet_address ∷ u64 proposal_id ∷ u32 (vote_enum vote) ∷ [];
  timeout = 30;
}

pub cast_vote :
    {V : Type 0} → NetworkConfig → Server V → JsString → ℕ → VoteType → Result JsString JsString
unfolding cast_vote_tx result_or
cast_vote config server wallet_address proposal_id vote = do
  answer ← server.simulate (cast_vote_tx config wallet_address proposal_id vote)
  value ← result_or (js "Transaction simulation failed") answer
  ok (server.to_text value)

-- `BigInt(String(result))`, for a text of decimal digits or none.
pub bigint_of : Native → Result JsString ℕ
bigint_of (number n) = ok n
bigint_of (text s) = elim (of_decimal s) [ none ↦ throws (js "SyntaxError") | some n ↦ ok n ]
bigint_of (boolean b) = throws (js "SyntaxError")
bigint_of nothing = throws (js "SyntaxError")

pub fetch_token_balance : {V : Type 0} → NetworkConfig → Server V → JsString → Result JsString ℕ
unfolding simulate_call bigint_of
fetch_token_balance config server owner = do
  value ← simulate_call config server config.token_contract_id (js "balance") (address owner ∷ [])
  bigint_of value

pub fetch_delegated_weight :
    {V : Type 0} → NetworkConfig → Server V → JsString → List JsString → Result JsString ℕ
unfolding simulate_call bigint_of
fetch_delegated_weight config server voter delegators = do
  value ←
      simulate_call config server config.token_contract_id (js "get_delegated_weight")
        (address voter ∷ vec delegators ∷ [])
  bigint_of value
