-- ===== src/Scripts/Inspect/Examples.antt =====
-- The theorems on scripts/inspect-state.js at concrete command lines and a contract with three proposals.
use cosmosvote.Prelude.{
  lt→ltb, parse_int, trim_start, is_space, ℤ, pos, negsuc, ℕ, min, ◌≡◌, refl, Option, none, some,
  false, List, [], ◌∷◌, ◌++◌, map, js, ◌===◌, lookup, starts_with, ltb, if◌then◌else◌, reverse_onto,
  concat_map, ok,
}
use cosmosvote.Scripts.Inspect.{parse_from, parse_flags, plain_args, Environment, settings_of}
use cosmosvote.Scripts.Inspect.Commands.{
  Proposal, Reply, printed, failed, Cli, invoke_view, fetch_proposal, fetch_range, first_id,
  fetch_proposals, proposals, run_command, main,
}
use cosmosvote.Scripts.Inspect.Flags.{Written, words_of, entry_of, parse_flags-written}
use cosmosvote.Scripts.Inspect.Listing.{numbers, Stores, fetch_proposals_lem}

abbrev written : List Written
written =
    record { name = js "--limit"; value = js "2" }
    ∷ record { name = js "--contract-id"; value = js "C" }
    ∷ []

parse_flags-written_example :
    (parse_flags ((js "proposals" ∷ []) ++ concat_map words_of written)
      ≡ reverse_onto (map entry_of written) [])
    × (plain_args ((js "proposals" ∷ []) ++ concat_map words_of written)
        ≡ (js "proposals" ∷ []) ++ map (λ w. w.value) written)
unfolding js starts_with
parse_flags-written_example =
    parse_flags-written (js "proposals" ∷ []) written (refl, tt) ((refl, refl), ((refl, refl), tt))

abbrev variables : Environment
variables = record { stellar_rpc_url = none; governance_contract_id = some (js "C") }

-- In front of the command, the value of a flag is taken for it.
front_test : (settings_of variables (js "--limit" ∷ js "5" ∷ js "proposals" ∷ [])).cmd ≡ js "5"
unfolding settings_of parse_flags parse_from plain_args js starts_with
front_test = refl

abbrev stored : ℕ → Proposal
stored id = record {
  id = id;
  title = js "P";
  votes_yes = id;
  votes_no = 0;
  votes_abstain = 0;
  voter_count = id;
}

abbrev reply : Option ℤ → Reply Proposal
reply none = failed (js "invalid digit")
reply (some (negsuc n)) = failed (js "invalid digit")
reply (some (pos id)) = if ltb id 3 then printed (stored id) else failed (js "proposal not found")

abbrev cli : Cli
cli = record {
  admin = printed (js "GA");
  voting_token = printed (js "CT");
  is_paused = printed false;
  proposal_count = printed 3;
  active_proposal_count = printed 1;
  min_proposal_balance = printed 0;
  proposal_cooldown = printed 0;
  restrict_admin_vote = printed false;
  get_proposal = reply;
}

cli-Stores : Stores cli 3 stored
unfolding js starts_with
cli-Stores = (refl, λ id lt. rw (lt→ltb id 3 lt) refl, (js "proposal not found", refl, refl))

main_test :
    main variables (js "proposals" ∷ js "--limit" ∷ js "2" ∷ []) cli
    ≡ ok (proposals (stored 2 ∷ []) ∷ [])
unfolding main run_command fetch_proposals fetch_range fetch_proposal first_id invoke_view
    settings_of parse_flags parse_from plain_args parse_int js starts_with trim_start is_space
    lookup ◌===◌
main_test = refl

fetch_proposals_lem_example :
    (fetch_proposals cli (some (pos 10)) ≡ ok (map stored (numbers 1 2))) × (2 ≡ min 9 2)
fetch_proposals_lem_example = fetch_proposals_lem cli 3 stored 10 cli-Stores
