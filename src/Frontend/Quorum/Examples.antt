-- ===== src/Frontend/Quorum/Examples.antt =====
-- The theorem on frontend/src/components/ProposalCard.tsx at a concrete proposal.
use cosmosvote.Prelude.{◌≡◌, refl, none, js}
use cosmosvote.Frontend.Proposals.{active, Proposal}
use cosmosvote.Frontend.Quorum.{total_votes, quorum_pct}

abbrev open_proposal : Proposal
open_proposal = record {
  id = 4;
  proposer = js "GABC";
  title = js "Fund the docs";
  description = js "Pay for a quarter.";
  cancellation_reason = none;
  votes_yes = 4;
  votes_no = 1;
  votes_abstain = 0;
  quorum = 3;
  start_time = 10;
  end_time = 90;
  state = active;
}

pct_test : quorum_pct open_proposal ≡ 100
unfolding quorum_pct total_votes
pct_test = refl
