-- ===== src/Scripts/Inspect.antt =====
-- scripts/inspect-state.js: the command line, and in the modules below the calls and the commands.
pub mod Commands
pub mod Flags
pub mod Listing
mod Examples
use cosmosvote.Prelude.{
  parse_int, ℤ, Option, none, some, Bool, true, false, not, ◌&&◌, List, [], ◌∷◌, JsString, js,
  truthy, lookup, nullish, or_else, starts_with, if◌then◌else◌, get_elem?, select,
}

-- The value of a flag: what is behind it, or true.
pub data FlagValue : Type 0 where
  text : JsString → FlagValue
  yes : FlagValue

abbrev pub dashes : JsString
dashes = js "--"

-- `argv[i + 1] && !argv[i + 1].startsWith('--')`
abbrev pub is_value : JsString → Bool
is_value s = truthy s && not (starts_with s dashes)

-- The object of the flags in the order in which they are set, the last one first.
unfoldable pub parse_from :
    List JsString → List (JsString × FlagValue) → List (JsString × FlagValue)
parse_from [] flags = flags
parse_from (a ∷ []) flags = if starts_with a dashes then (a, yes) ∷ flags else flags
parse_from (a ∷ b ∷ argv) flags =
    let taken = parse_from argv ((a, text b) ∷ flags) in
    let alone = parse_from (b ∷ argv) ((a, yes) ∷ flags) in
    let skipped = parse_from (b ∷ argv) flags in
    if starts_with a dashes then (if is_value b then taken else alone) else skipped

unfoldable pub parse_flags : List JsString → List (JsString × FlagValue)
unfolding parse_from
parse_flags argv = parse_from argv []

-- `args.filter(a => !a.startsWith('--'))`
unfoldable pub plain_args : List JsString → List JsString
plain_args argv = select (λ a. not (starts_with a dashes)) argv

pub record Environment : Type 0 where
  pub stellar_rpc_url : Option JsString
  pub governance_contract_id : Option JsString

-- The values read from the flags, where `true` is written into strings as its name.
abbrev pub flag_text : FlagValue → JsString
flag_text (text s) = s
flag_text yes = js "true"

abbrev pub flag : JsString → List (JsString × FlagValue) → Option JsString
flag name flags = elim (lookup name flags) [ none ↦ none | some v ↦ some (flag_text v) ]

abbrev network_rpc : List (JsString × JsString)
network_rpc =
    (js "testnet", js "https://soroban-testnet.stellar.org")
    ∷ (js "mainnet", js "https://mainnet.stellar.validationcloud.io/v1/stellar")
    ∷ []

pub record Settings : Type 0 where
  pub rpc_url : Option JsString
  pub contract_id : JsString
  pub json_output : Bool
  pub limit : Option ℤ
  pub cmd : JsString
  pub cmd_arg : Option JsString

abbrev is_found : Option FlagValue → Bool
is_found none = false
is_found (some v) = true

unfoldable pub settings_of : Environment → List JsString → Settings
unfolding parse_flags plain_args
settings_of env argv =
    let flags = parse_flags argv in
    record {
      rpc_url = nullish (flag (js "--rpc-url") flags) (
          nullish env.stellar_rpc_url
            (lookup (or_else (flag (js "--network") flags) (js "testnet")) network_rpc));
      contract_id =
          or_else (nullish (flag (js "--contract-id") flags) env.governance_contract_id) [];
      json_output = is_found (lookup (js "--json") flags);
      limit = parse_int (or_else (flag (js "--limit") flags) (js "10"));
      cmd = or_else (get_elem? (plain_args argv) 0) (js "all");
      cmd_arg = get_elem? (plain_args argv) 1;
    }
