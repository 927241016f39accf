-- ===== src/Frontend/Proposals/Examples.antt =====
-- The theorems on the loading of proposals and votes at a concrete chain.
use cosmosvote.Prelude.{
  ℕ, zero, suc, ◌≤◌, ◌<◌, ◌≡◌, refl, ◌↔◌, none, some, true, false, List, JsString, js, ◌==◌,
  if◌then◌else◌, length, In, Result, ok, throws,
}
use cosmosvote.Frontend.Proposals.{
  active, yes, Proposal, VoteRecord, Chain, fetch_all_proposals, Store, initial_store,
  load_proposals,
}
use cosmosvote.Frontend.Proposals.Loading.{RisesFrom, fetch_all_proposals_iff}

abbrev proposal_of : ℕ → Proposal
proposal_of id = record {
  id = id;
  proposer = js "GABC";
  title = js "Fund the docs";
  description = js "Pay for a quarter.";
  cancellation_reason = none;
  votes_yes = 4;
  votes_no = 1;
  votes_abstain = 0;
  quorum = 3;
  start_time = 10;
  end_time = 90;
  state = active;
}

abbrev yes_vote : VoteRecord
yes_vote = record { vote = yes; weight = 4 }

-- Proposal 1 cannot be read.
abbrev get_sample : ℕ → Result JsString Proposal
get_sample zero = ok (proposal_of 0)
get_sample (suc zero) = throws (js "expired")
get_sample (suc (suc n)) = ok (proposal_of (suc (suc n)))

abbrev sample_chain : Chain
sample_chain = record {
  proposal_count = ok 3;
  get_proposal = get_sample;
  has_voted = λ id voter. ok true;
  get_vote = λ id voter. if id == 2 then ok (some yes_vote) else throws (js "missing");
  decimals = ok 7;
}

own_numbers : (k : ℕ) (p : Proposal) → get_sample k ≡ ok p → p.id ≡ k
own_numbers zero p e = cc
own_numbers (suc zero) p e = cc
own_numbers (suc (suc n)) p e = cc

fetch_all_proposals_iff_example :
    (ps : List Proposal) × (fetch_all_proposals sample_chain ≡ ok ps)
    × ((p : Proposal) → In p ps ↔ ((k : ℕ) × (k < 3) × (get_sample k ≡ ok p)))
    × RisesFrom 0 ps
    × (length ps ≤ 3)
fetch_all_proposals_iff_example = fetch_all_proposals_iff sample_chain 3 refl own_numbers

abbrev loaded_store : Store
loaded_store = load_proposals sample_chain false initial_store
