-- ===== src/Frontend/Dashboard/Examples.antt =====
-- The dashboard of frontend/src/components/UserDashboard.tsx for a wallet with one vote.
use cosmosvote.Prelude.{ℕ, ◌≡◌, refl, none, some, [], ◌∷◌, js, ◌==◌, if◌then◌else◌}
use cosmosvote.Frontend.Proposals.{ProposalState, active, passed, Proposal, yes}
use cosmosvote.Frontend.Dashboard.{
  VotedMap, is_active, is_voted, row_of, unvoted_of, nudge_of, dashboard,
}

abbrev proposal : ℕ → ProposalState → Proposal
proposal id state = record {
  id = id;
  proposer = js "GABC";
  title = js "Fund the docs";
  description = js "Pay for a quarter.";
  cancellation_reason = none;
  votes_yes = 4;
  votes_no = 1;
  votes_abstain = 0;
  quorum = 3;
  start_time = 10;
  end_time = 90;
  state = state;
}

abbrev voted_map : VotedMap
voted_map id = if id == 2 then some (record { vote = yes; weight = 9 }) else none

dashboard_test :
    let d = dashboard voted_map (proposal 1 active ∷ proposal 2 active ∷ proposal 3 passed ∷ []) in
    (d.active_count ≡ 2) × (d.voted_count ≡ 1) × (d.nudge ≡ some (1, []))
unfolding dashboard is_active is_voted row_of unvoted_of nudge_of
dashboard_test = (refl, refl, refl)
