-- ===== src/Contracts/Governance/Examples.antt =====
-- Runs of contracts/governance/src/lib.rs.
use cosmosvote.Prelude.{
  ◌++◌, inl, ok, pos, ℕ, ◌+◌, ◌≤◌, ◌<◌, ◌≡◌, refl, ◌≢◌, ◌⊎◌, none, some, true, List, [], ◌∷◌, js,
  ◌===◌,
}
use cosmosvote.Frontend.Proposals.{active, passed, executed, yes, no, abstain}
use cosmosvote.Contracts.Governance.{
  State, Proposal, Env, assert_ready, checked_add, set_proposal, end_active,
}
use cosmosvote.Contracts.Governance.Voting.{
  vote_record, put_record, add_weight, subtract_weight, store_vote, cast_vote, voted_record,
  remove_vote, retract_vote,
}
use cosmosvote.Contracts.Governance.Proposing.{
  Draft, floor_check, balance_check, cooldown_check, proposal_of, store_new, create_proposal,
  total_votes, outcome, finalise,
}
use cosmosvote.Contracts.Governance.Admin.{deployed, Setup, initialize}
use cosmosvote.Contracts.Governance.History as History
use cosmosvote.Contracts.Governance.History.{Call, call, settled, history}
use cosmosvote.Contracts.Governance.Tally.{weights}
use cosmosvote.Contracts.Governance.Accepting.{IsAccepted, IsStored, counted, cast_vote_lem}
use cosmosvote.Contracts.Governance.Decided.{history-IsCarried}
use cosmosvote.Contracts.Governance.Ended.{history-IsAtRest}
use cosmosvote.Contracts.Governance.Kept.{Kept}
use cosmosvote.Contracts.Governance.Tallied.{history-Kept}
use cosmosvote.Frontend.Forms.Contract.{check_inputs}

abbrev at : ℕ → Env
at now = record {
  timestamp = now;
  sequence = 7;
  total_supply = 100;
  balance = λ a. 30;
  balance_at = λ a ledger. 30;
  get_delegation = λ a. none;
}

abbrev setup : Setup
setup = record {
  admin = js "A";
  voting_token = js "T";
  min_proposal_balance = pos 0;
  proposal_cooldown = 0;
  min_quorum_bps = 0;
  restrict_admin_vote = true;
}

abbrev draft : Draft
draft = record {
  title = js "t";
  description = js "d";
  quorum = pos 20;
  duration = 60;
  link = none;
  treasury_action = none;
}

abbrev calls : List (Env × Call)
calls =
    (at 1, History.initialize setup)
    ∷ (at 2, History.create_proposal (js "B") draft)
    ∷ (at 3, History.cast_vote (js "B") 0 yes)
    ∷ (at 4, History.cast_vote (js "B") 0 no)
    ∷ (at 90, History.finalise 0)
    ∷ []

abbrev passed_proposal : Proposal
passed_proposal = record {
  id = 0;
  proposer = js "B";
  title = js "t";
  description = js "d";
  link = none;
  votes_yes = 30;
  votes_no = 0;
  votes_abstain = 0;
  quorum = 20;
  start_time = 2;
  end_time = 62;
  state = passed;
  snapshot_ledger = 7;
  voter_count = 1;
  treasury_action = none;
  cancellation_reason = none;
}

calls_lem : (history deployed calls).proposals 0 ≡ some passed_proposal
unfolding history settled call initialize create_proposal assert_ready check_inputs floor_check
    balance_check cooldown_check store_new proposal_of set_proposal cast_vote add_weight checked_add
    store_vote put_record finalise total_votes outcome end_active ◌===◌ js
calls_lem = refl

-- Who retracts a vote stays in the number of voters.
retracted_lem :
    (history deployed (
        (at 1, History.initialize setup)
        ∷ (at 2, History.create_proposal (js "B") draft)
        ∷ (at 3, History.cast_vote (js "B") 0 yes)
        ∷ (at 4, History.retract_vote (js "B") 0)
        ∷ [])).proposals
      0
    ≡ some (record passed_proposal { state = active; votes_yes = 0 })
unfolding history settled call initialize create_proposal assert_ready check_inputs floor_check
    balance_check cooldown_check store_new proposal_of set_proposal cast_vote add_weight checked_add
    store_vote put_record retract_vote voted_record vote_record remove_vote subtract_weight ◌===◌ js
retracted_lem = refl

history-IsCarried_example :
    let bs = (history deployed calls).votes 0 in
    (20 ≤ weights yes bs + weights no bs + weights abstain bs) × (weights no bs < weights yes bs)
history-IsCarried_example = history-IsCarried calls 0 passed_proposal calls_lem (inl refl)

abbrev later_calls : List (Env × Call)
later_calls =
    (at 91, History.cast_vote (js "C") 0 no) ∷ (at 92, History.execute none (js "A") 0) ∷ []

passed_not_active : passed_proposal.state ≢ active
passed_not_active h = cc

history-IsAtRest_example :
    (q : Proposal) × ((history (history deployed calls) later_calls).proposals 0 ≡ some q)
    × ((passed_proposal ≡ q)
        ⊎ ((passed_proposal.state ≡ passed) × (record passed_proposal { state = executed } ≡ q)))
history-IsAtRest_example =
    history-IsAtRest calls later_calls 0 passed_proposal calls_lem passed_not_active

history-Kept_example : Kept (history deployed calls)
history-Kept_example = history-Kept calls

abbrev opening : List (Env × Call)
opening = (at 1, History.initialize setup) ∷ (at 2, History.create_proposal (js "B") draft) ∷ []

abbrev voted_once : State
voted_once = history deployed (opening ++ (at 3, History.cast_vote (js "B") 0 yes) ∷ [])

voted_once_lem : cast_vote (at 3) (js "B") 0 yes (history deployed opening) ≡ ok voted_once
unfolding history settled call initialize create_proposal assert_ready check_inputs floor_check
    balance_check cooldown_check store_new proposal_of set_proposal cast_vote add_weight checked_add
    store_vote put_record ◌===◌ js
voted_once_lem = refl

cast_vote_lem_example :
    let s = history deployed opening in
    (p : Proposal) × (s.proposals 0 ≡ some p)
    × IsAccepted (at 3) (js "B") 0 yes s p
    × IsStored 0
        (record { voter = js "B"; vote = yes; weight = 30 })
        (counted yes 30 p)
        s
        voted_once
cast_vote_lem_example = cast_vote_lem opening (at 3) (js "B") 0 yes voted_once voted_once_lem
