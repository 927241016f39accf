-- ===== src/Scripts/Inspect/Commands.antt =====
-- scripts/inspect-state.js: the calls of the contract and the commands. What the Stellar CLI answers is a
-- parameter, its output parsed. JSON and the layout of the printed lines are left out: a command's output
-- is the data that it prints.
use cosmosvote.Prelude.{
  contains, parse_int, ℤ, pos, negsuc, ℕ, zero, suc, ◌+◌, ◌-◌, max, Option, none, some, Bool, ◌||◌,
  List, [], ◌∷◌, ◌++◌, JsString, js, ◌===◌, truthy, is_set, or_else, if◌then◌else◌, cons_some,
  Result, ok, throws, ◌>>=◌,
}
use cosmosvote.Scripts.Inspect.{Environment, Settings, settings_of}

-- A proposal as the contract answers it, as far as it is printed.
pub record Proposal : Type 0 where
  pub id : ℕ
  pub title : JsString
  pub votes_yes : ℕ
  pub votes_no : ℕ
  pub votes_abstain : ℕ
  pub voter_count : ℕ

-- What the CLI does for a call: it prints a value, or fails with an output on stderr.
pub data Reply (A : Type 0) : Type 0 where
  printed : A → Reply A
  failed : JsString → Reply A

-- The contract's views by the CLI. The argument of `get_proposal` is none for NaN.
pub record Cli : Type 0 where
  pub admin : Reply JsString
  pub voting_token : Reply JsString
  pub is_paused : Reply Bool
  pub proposal_count : Reply ℕ
  pub active_proposal_count : Reply ℕ
  pub min_proposal_balance : Reply ℕ
  pub proposal_cooldown : Reply ℕ
  pub restrict_admin_vote : Reply Bool
  pub get_proposal : Option ℤ → Reply Proposal

-- `invokeView`: null for a thing that is not found, and an error for any other failure.
unfoldable pub invoke_view : {A : Type 0} → JsString → Reply A → Result JsString (Option A)
invoke_view fn (printed a) = ok (some a)
invoke_view fn (failed stderr) =
    if contains stderr (js "not found") || contains stderr (js "missing")
    then ok none
    else throws (js "RPC call failed for \"" ++ fn ++ js "\": " ++ stderr)

unfoldable pub fetch_proposal : Cli → Option ℤ → Result JsString (Option Proposal)
unfolding invoke_view
fetch_proposal cli id = invoke_view (js "get_proposal") (cli.get_proposal id)

-- The loop over `id`, with the number of its rounds.
unfoldable pub fetch_range : Cli → ℕ → ℕ → Result JsString (List Proposal)
unfolding fetch_proposal
fetch_range cli zero id = ok []
fetch_range cli (suc rounds) id = do
  p ← fetch_proposal cli (some (pos id))
  rest ← fetch_range cli rounds (id + 1)
  ok (cons_some p rest)

-- `Math.max(1, count - limit + 1)`, for a limit that is a number.
unfoldable pub first_id : ℕ → ℤ → ℕ
first_id count (pos limit) = max 1 (count + 1 - limit)
first_id count (negsuc m) = count + m + 2

-- Without a number for the limit the test of the loop is false at once.
unfoldable pub fetch_proposals : Cli → Option ℤ → Result JsString (List Proposal)
unfolding invoke_view fetch_range first_id
fetch_proposals cli limit = do
  answer ← invoke_view (js "proposal_count") cli.proposal_count
  let count = or_else answer 0 in
      elim limit [
        | none ↦ ok []
        | some l ↦ fetch_range cli (count + 1 - first_id count l) (first_id count l)
      ]

pub record Config : Type 0 where
  pub admin : Option JsString
  pub voting_token : Option JsString
  pub paused : Option Bool
  pub proposal_count : Option ℕ
  pub active_proposal_count : Option ℕ
  pub min_proposal_balance : Option ℕ
  pub proposal_cooldown : Option ℕ
  pub restrict_admin_vote : Option Bool

unfoldable pub fetch_config : Cli → Result JsString Config
unfolding invoke_view
fetch_config cli = do
  admin ← invoke_view (js "admin") cli.admin
  voting_token ← invoke_view (js "voting_token") cli.voting_token
  paused ← invoke_view (js "is_paused") cli.is_paused
  proposal_count ← invoke_view (js "proposal_count") cli.proposal_count
  active ← invoke_view (js "active_proposal_count") cli.active_proposal_count
  min_balance ← invoke_view (js "min_proposal_balance") cli.min_proposal_balance
  cooldown ← invoke_view (js "proposal_cooldown") cli.proposal_cooldown
  restrict ← invoke_view (js "restrict_admin_vote") cli.restrict_admin_vote
  ok (record {
    admin = admin;
    voting_token = voting_token;
    paused = paused;
    proposal_count = proposal_count;
    active_proposal_count = active;
    min_proposal_balance = min_balance;
    proposal_cooldown = cooldown;
    restrict_admin_vote = restrict;
  })

-- What a command prints, or the message with which it dies.
pub data Output : Type 0 where
  admin_settings : Config → Output
  proposals : List Proposal → Output
  proposal : Option Proposal → Output
  votes : (yes_ no_ abstain voters : ℕ) → Output
  not_found : Output
  dies : JsString → Output

unfoldable pub votes_of : Option Proposal → Output
votes_of none = not_found
votes_of (some p) = votes p.votes_yes p.votes_no p.votes_abstain p.voter_count

-- A command that wants an argument; `if (!CMD_ARG)` also holds for the empty text.
unfoldable pub with_arg :
    Option JsString
    → JsString
    → (Option ℤ → Result JsString (List Output))
    → Result JsString (List Output)
with_arg arg usage run =
    let given = run (parse_int (or_else arg [])) in
    if is_set arg then given else ok (dies usage ∷ [])

unfoldable pub run_command : Settings → Cli → Result JsString (List Output)
unfolding fetch_config fetch_proposals fetch_proposal with_arg votes_of
run_command s cli =
    let config : Result JsString (List Output) = do
      config ← fetch_config cli
      ok (admin_settings config ∷ [])
    in let list : Result JsString (List Output) = do
      list ← fetch_proposals cli s.limit
      ok (proposals list ∷ [])
      in let all : Result JsString (List Output) = do
        config ← fetch_config cli
        list ← fetch_proposals cli s.limit
        ok (admin_settings config ∷ proposals list ∷ [])
        in if s.cmd === js "config"
          then config
          else if s.cmd === js "proposals"
          then list
          else if s.cmd === js "proposal"
          then with_arg s.cmd_arg (js "Usage: proposal <id>")
              (λ id. do p ← fetch_proposal cli id; ok (proposal p ∷ []))
          else if s.cmd === js "votes"
          then with_arg s.cmd_arg (js "Usage: votes <proposal-id>")
              (λ id. do p ← fetch_proposal cli id; ok (votes_of p ∷ []))
          else if s.cmd === js "all"
          then all
          else ok (
              dies (
                js "Unknown command: "
                ++ s.cmd
                ++ js ". Use: config | proposals | proposal | votes | all")
              ∷ [])

-- The whole script; without a contract it dies at once.
unfoldable pub main : Environment → List JsString → Cli → Result JsString (List Output)
unfolding settings_of run_command
main env argv cli =
    let ran = run_command (settings_of env argv) cli in
    if truthy (settings_of env argv).contract_id
    then ran
    else ok
        (dies (js "GOVERNANCE_CONTRACT_ID is not set. Pass --contract-id or set the env var.") ∷ [])
