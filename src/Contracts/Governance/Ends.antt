-- ===== src/Contracts/Governance/Ends.antt =====
-- What a call of contracts/governance/src/lib.rs that makes, amends or ends a proposal has found and stored
-- when it succeeds.
use cosmosvote.Prelude.{
  bind-ok, le→leb, ℕ, ◌+◌, ◌<◌, ◌≡◌, refl, ap, ◌∙◌, Option, some, true, not, arith, JsString, ◌===◌,
  ltb, leb, ok,
}
use cosmosvote.Frontend.Proposals.{ProposalState, active, passed, rejected, executed, cancelled}
use cosmosvote.Frontend.Errors.{
  proposals_still_active, quorum_exceeds_supply, not_proposer, proposal_not_active,
  votes_already_cast, invalid_title, invalid_description, voting_still_open, proposal_not_passed,
}
use cosmosvote.Frontend.Forms.Contract.{check_inputs}
use cosmosvote.Contracts.Governance.{
  Address, Proposal, State, Env, refuse, assert_ready, assert_admin, found, is_active, checked_add,
  set_proposal, end_active,
}
use cosmosvote.Contracts.Governance.Proposing.{
  Draft, magnitude, floor_check, balance_check, cooldown_check, store_new, create_proposal,
  total_votes, bad_text, amend_proposal, outcome, finalise, is_passed, Treasury, pay_out, execute,
  cancel,
}
use cosmosvote.Contracts.Governance.Calls.{
  refuse-ok, found-ok, not-false, is_active-active, ok_injective, checked_add-ok,
}

-- The total is the sum of the three counters.
pub total_votes_lem :
    (p : Proposal) (n : ℕ) → total_votes p ≡ ok n → p.votes_yes + p.votes_no + p.votes_abstain ≡ n
unfolding total_votes
total_votes_lem p n h =
    let (two, e0, h0) = bind-ok (checked_add p.votes_yes p.votes_no) _ n h in
    rw (checked_add-ok p.votes_yes p.votes_no two e0) (checked_add-ok two p.votes_abstain n h0)

assert_ready-ready : (s : State) (u : Unit {0}) → assert_ready s ≡ ok u → s.ready ≡ true
unfolding assert_ready
assert_ready-ready s u h = ground arith

pub create_proposal-stored :
    (env : Env) (proposer : Address) (draft : Draft) (s t : State)
    → create_proposal env proposer draft s ≡ ok t
    → (s.ready ≡ true) × (store_new env proposer draft s ≡ t)
unfolding create_proposal
create_proposal-stored env proposer draft s t h =
    let (u0, e0, h0) = bind-ok (assert_ready s) _ t h in
    let (u1, e1, h1) = bind-ok (check_inputs _ _ _ _ _) _ t h0 in
    let (u2, e2, h2) = bind-ok (refuse (leb 50 s.active_count) proposals_still_active) _ t h1 in
    let (u3, e3, h3) =
      bind-ok (refuse (ltb env.total_supply (magnitude draft.quorum)) quorum_exceeds_supply) _ t
        h2 in
    let (u4, e4, h4) =
      bind-ok (floor_check s.min_quorum_bps env.total_supply (magnitude draft.quorum)) _ t h3 in
    let (u5, e5, h5) = bind-ok (balance_check s env proposer) _ t h4 in
    let (u6, e6, h6) = bind-ok (cooldown_check s env proposer) _ t h5 in
    (assert_ready-ready s u0 e0, ok_injective h6)

pub amend_proposal-stored :
    (proposer : Address) (id : ℕ) (new_title new_description : JsString) (s t : State)
    → amend_proposal proposer id new_title new_description s ≡ ok t
    → (p : Proposal) × (s.proposals id ≡ some p)
      × (p.state ≡ active)
      × (set_proposal id (record p { title = new_title; description = new_description }) s ≡ t)
unfolding amend_proposal
amend_proposal-stored proposer id new_title new_description s t h =
    let (u0, e0, h0) = bind-ok (assert_ready s) _ t h in
    let (p, e1, h1) = bind-ok (found (s.proposals id)) _ t h0 in
    let (u2, e2, h2) = bind-ok (refuse (not (p.proposer === proposer)) not_proposer) _ t h1 in
    let (u3, e3, h3) = bind-ok (refuse (not (is_active p.state)) proposal_not_active) _ t h2 in
    let (n, e4, h4) = bind-ok (total_votes p) _ t h3 in
    let (u5, e5, h5) = bind-ok (refuse (ltb 0 n) votes_already_cast) _ t h4 in
    let (u6, e6, h6) = bind-ok (refuse (bad_text 128 new_title) invalid_title) _ t h5 in
    let (u7, e7, h7) =
      bind-ok (refuse (bad_text 1024 new_description) invalid_description) _ t h6 in
    (
      p,
      found-ok (s.proposals id) p e1,
      is_active-active p.state (not-false (is_active p.state) (refuse-ok _ _ u3 e3)),
      ok_injective h7,
    )

-- A proposal is finalised once, after its end, by the total of its counters.
pub finalise-stored :
    (env : Env) (id : ℕ) (s t : State)
    → finalise env id s ≡ ok t
    → (p : Proposal) × (s.proposals id ≡ some p)
      × (p.state ≡ active)
      × (p.end_time < env.timestamp)
      × (end_active (
            set_proposal id
              (record p { state = outcome p (p.votes_yes + p.votes_no + p.votes_abstain) })
              s)
          ≡ t)
unfolding finalise
finalise-stored env id s t h =
    let (u0, e0, h0) = bind-ok (assert_ready s) _ t h in
    let (p, e1, h1) = bind-ok (found (s.proposals id)) _ t h0 in
    let (u2, e2, h2) = bind-ok (refuse (not (is_active p.state)) proposal_not_active) _ t h1 in
    let (u3, e3, h3) = bind-ok (refuse (leb env.timestamp p.end_time) voting_still_open) _ t h2 in
    let (n, e4, h4) = bind-ok (total_votes p) _ t h3 in
    (
      p,
      found-ok (s.proposals id) p e1,
      is_active-active p.state (not-false (is_active p.state) (refuse-ok _ _ u2 e2)),
      grind (arith, refuse-ok _ _ u3 e3, le→leb env.timestamp p.end_time),
      ap (λ k. end_active (set_proposal id (record p { state = outcome p k }) s))
            (total_votes_lem p n e4)
          ∙ ok_injective h4,
    )

is_passed-passed : (x : ProposalState) → is_passed x ≡ true → x ≡ passed
is_passed-passed active h = cc
is_passed-passed passed h = refl
is_passed-passed rejected h = cc
is_passed-passed executed h = cc
is_passed-passed cancelled h = cc

-- Only a passed proposal is executed, by the administrator, and the treasury has paid if it was to pay.
pub execute-stored :
    (treasury : Option Treasury) (caller : Address) (id : ℕ) (s t : State)
    → execute treasury caller id s ≡ ok t
    → (p : Proposal) × (s.proposals id ≡ some p)
      × (p.state ≡ passed)
      × (pay_out treasury p.treasury_action ≡ ok tt)
      × (set_proposal id (record p { state = executed }) s ≡ t)
unfolding execute
execute-stored treasury caller id s t h =
    let (u0, e0, h0) = bind-ok (assert_admin s caller) _ t h in
    let (p, e1, h1) = bind-ok (found (s.proposals id)) _ t h0 in
    let (u2, e2, h2) = bind-ok (refuse (not (is_passed p.state)) proposal_not_passed) _ t h1 in
    let (u3, e3, h3) = bind-ok (pay_out treasury p.treasury_action) _ t h2 in
    (
      p,
      found-ok (s.proposals id) p e1,
      is_passed-passed p.state (not-false (is_passed p.state) (refuse-ok _ _ u2 e2)),
      e3,
      ok_injective h3,
    )

-- Only an active proposal is cancelled.
pub cancel-stored :
    (caller : Address) (id : ℕ) (reason : Option JsString) (s t : State)
    → cancel caller id reason s ≡ ok t
    → (p : Proposal) × (s.proposals id ≡ some p)
      × (p.state ≡ active)
      × (end_active
            (set_proposal id (record p { state = cancelled; cancellation_reason = reason }) s)
          ≡ t)
unfolding cancel
cancel-stored caller id reason s t h =
    let (u0, e0, h0) = bind-ok (assert_admin s caller) _ t h in
    let (p, e1, h1) = bind-ok (found (s.proposals id)) _ t h0 in
    let (u2, e2, h2) = bind-ok (refuse (not (is_active p.state)) proposal_not_active) _ t h1 in
    (
      p,
      found-ok (s.proposals id) p e1,
      is_active-active p.state (not-false (is_active p.state) (refuse-ok _ _ u2 e2)),
      ok_injective h2,
    )
