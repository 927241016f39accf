-- ===== src/Frontend/Forms/Create/Submission.antt =====
-- The submission in frontend/src/components/CreateProposalForm.tsx. What the Stellar SDK, the server and
-- the prompt return is a parameter.
use cosmosvote.Prelude.{
  ℤ, ℕ, zero, suc, ◌+◌, Option, none, some, not, List, [], ◌∷◌, ◌++◌, JsString, js, ◌===◌, truthy,
  or_else, starts_with, trim, if◌then◌else◌, Result, ok, throws, ◌>>=◌, ◌>>◌,
}
use cosmosvote.Frontend.Access.{
  Environment, NetworkConfig, active_network, ScVal, address, string, u64, i128, Transaction,
}
use cosmosvote.Frontend.Forms.{FormState, Doubles}
use cosmosvote.Frontend.Forms.Create.{rounded}

-- What a submission ends in, when it does not throw.
pub data Ending : Type 0 where
  confirmed : ℕ → Ending
  cancelled bad_key : Ending

-- The answer to `getTransaction`: success with the returned identifier where there is a value, failure,
-- or neither yet.
pub data Status : Type 0 where
  success : Option ℕ → Status
  failed not_found : Status

-- The answer to `sendTransaction`: the status ERROR with its text, or the hash.
pub data Sent : Type 0 where
  error_status hash : JsString → Sent

-- The Stellar SDK, the server and the prompt: what each call returns or throws. `to_i128` and
-- `to_u64` are `nativeToScVal` with these types, which may refuse a number that is out of range, and `status` answers the question of that number.
pub record Network (S : Type 0) : Type 0 where
  pub get_account : JsString → Result JsString ℕ
  pub to_i128 : ℤ → Result JsString ℤ
  pub to_u64 : ℤ → Result JsString ℕ
  pub build : Transaction → Result JsString (Unit {0})
  pub simulate : Transaction → Result JsString (Option JsString)
  pub assemble : Transaction → Result JsString Transaction
  pub prompt : Option JsString
  pub sign : JsString → Transaction → Result JsString S
  pub send : S → Result JsString Sent
  pub status : JsString → ℕ → Result JsString Status

-- The loop over `attempts`, with the number of those that are left.
unfoldable pub confirm : (ℕ → Result JsString Status) → ℕ → ℕ → Result JsString Ending
confirm ask zero attempts = throws (js "Transaction timed out waiting for confirmation.")
confirm ask (suc left) attempts =
    let rest = confirm ask left (attempts + 1) in
    elim (ask attempts) [
      | throws e ↦ throws e
      | ok (success id) ↦ ok (confirmed (or_else id 0))
      | ok failed ↦ throws (js "Transaction failed on-chain.")
      | ok not_found ↦ rest
    ]

unfoldable pub hash_of : Sent → Result JsString JsString
hash_of (error_status text) = throws (js "Submission error: " ++ text)
hash_of (hash h) = ok h

unfoldable pub no_simulation_error : Option JsString → Result JsString (Unit {0})
no_simulation_error none = ok tt
no_simulation_error (some e) = throws (js "Simulation error: " ++ e)

abbrev pub public_passphrase : JsString
public_passphrase = js "Public Global Stellar Network ; September 2015"

abbrev pub testnet_passphrase : JsString
testnet_passphrase = js "Test SDF Network ; September 2015"

module _ {W S : Type 0} (d : Doubles W) (net : Network S) where
  unfoldable pub arguments : JsString → FormState → Result JsString (List ScVal)
  unfolding rounded
  arguments wallet form = do
    votes ← rounded d form.quorum
    quorum ← net.to_i128 votes
    seconds ← rounded d form.duration
    duration ← net.to_u64 seconds
    ok (
        address wallet
        ∷ string (trim form.title)
        ∷ string (trim form.description)
        ∷ i128 quorum
        ∷ u64 duration
        ∷ [])

module _ (env : Environment) (config : NetworkConfig) where
  unfoldable pub transaction : JsString → ℕ → List ScVal → Transaction
  transaction wallet sequence args = record {
    source = wallet;
    sequence = sequence;
    fee = 1000000;
    network_passphrase =
        if active_network env === js "mainnet" then public_passphrase else testnet_passphrase;
    contract = config.governance_contract_id;
    function = js "create_proposal";
    args = args;
    timeout = 30;
  }

module _ {S : Type 0} (net : Network S) where
  -- From the prompt on.
  unfoldable pub sign_and_send : Option JsString → Transaction → Result JsString Ending
  unfolding hash_of confirm
  sign_and_send none tx = ok cancelled
  sign_and_send (some key) tx =
      let rest : Result JsString Ending = do
        signed ← net.sign key tx
        sent ← net.send signed
        h ← hash_of sent
        confirm (net.status h) 20 0
      in if not (truthy key)
        then ok cancelled
        else if starts_with key (js "S")
        then rest
        else ok bad_key

module _ {W S : Type 0} (d : Doubles W) (net : Network S) (env : Environment)
    (config : NetworkConfig) where
  -- The body of the `try` in `handleSubmit`.
  unfoldable pub submission : JsString → FormState → Result JsString Ending
  unfolding transaction arguments sign_and_send no_simulation_error
  submission wallet form = do
    sequence ← net.get_account wallet
    args ← arguments d net wallet form
    net.build (transaction env config wallet sequence args)
    simulated ← net.simulate (transaction env config wallet sequence args)
    no_simulation_error simulated
    assembled ← net.assemble (transaction env config wallet sequence args)
    sign_and_send net net.prompt assembled
