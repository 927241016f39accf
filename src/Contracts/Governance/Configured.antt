-- ===== src/Contracts/Governance/Configured.antt =====
-- contracts/governance/src/lib.rs: the storage after the calls of the administrator.
use cosmosvote.Prelude.{
  bind-ok, ℤ, ℕ, ◌+◌, ◌-◌, ◌/◌, ◌≡◌, refl, ap, subst, inl, inr, none, some, Bool, true, false, not,
  ◌===◌, ltb, Bool-cases, ok,
}
use cosmosvote.Frontend.Proposals.{active}
use cosmosvote.Frontend.Errors.{
  invalid_quorum, quorum_exceeds_supply, proposal_not_active, quorum_update_not_allowed,
  invalid_new_admin, proposals_still_active, not_pending_admin, contract_paused, not_paused,
  insufficient_balance,
}
use cosmosvote.Contracts.Governance.{
  Address, Proposal, State, Env, refuse, assert_admin, found, is_active, set_proposal,
}
use cosmosvote.Contracts.Governance.Proposing.{magnitude}
use cosmosvote.Contracts.Governance.Admin.{
  deployed, Setup, initialize, update_quorum, zero_addr, propose_admin, pending, accept_admin,
  cancel_admin_transfer, update_voting_token, pause, unpause, is_negative, set_min_proposal_balance,
  set_proposal_cooldown, set_restrict_admin_vote,
}
use cosmosvote.Contracts.Governance.Calls.{
  refuse-ok, found-ok, not-false, is_active-active, ok_injective,
}
use cosmosvote.Contracts.Governance.Kept.{Kept, counters_same}
use cosmosvote.Contracts.Governance.Invariant.{Kept-set_proposal}

pub Kept-deployed : Kept deployed
Kept-deployed = (λ n. (refl, refl), λ n m. refl, λ r n. refl)

pub Kept-initialize : (setup : Setup) (s t : State) → Kept s → initialize setup s ≡ ok t → Kept t
unfolding initialize
Kept-initialize setup s t k h = elim (Bool-cases s.ready) [
  | inl r ↦ absurd (let x = rw r at h in cc)
  | inr r ↦
      subst Kept (ok_injective (rw r at h))
        (k.0, λ n m. k.2 r n, λ x. absurd (let y : true ≡ false = x in cc))
]

pub initialize-stored :
    (setup : Setup) (s t : State) → initialize setup s ≡ ok t → s.proposals ≡ t.proposals
unfolding initialize
initialize-stored setup s t h = elim (Bool-cases s.ready) [
  | inl r ↦ absurd (let x = rw r at h in cc)
  | inr r ↦ ap (λ x. x.proposals) (ok_injective (rw r at h))
]

pub update_quorum-stored :
    (env : Env) (caller : Address) (id : ℕ) (quorum : ℤ) (s t : State)
    → update_quorum env caller id quorum s ≡ ok t
    → (p : Proposal) × (s.proposals id ≡ some p)
      × (p.state ≡ active)
      × (set_proposal id (record p { quorum = magnitude quorum }) s ≡ t)
unfolding update_quorum
update_quorum-stored env caller id quorum s t h =
    let (u0, e0, h0) = bind-ok (assert_admin s caller) _ t h in
    let (u1, e1, h1) = bind-ok (refuse (not (ltb 0 (magnitude quorum))) invalid_quorum) _ t h0 in
    let (u2, e2, h2) =
      bind-ok (refuse (ltb env.total_supply (magnitude quorum)) quorum_exceeds_supply) _ t h1 in
    let (p, e3, h3) = bind-ok (found (s.proposals id)) _ t h2 in
    let (u4, e4, h4) = bind-ok (refuse (not (is_active p.state)) proposal_not_active) _ t h3 in
    let (u5, e5, h5) =
      bind-ok
        (refuse (ltb (p.start_time + (p.end_time - p.start_time) / 10) env.timestamp)
          quorum_update_not_allowed)
        _ t h4 in
    (
      p,
      found-ok (s.proposals id) p e3,
      is_active-active p.state (not-false (is_active p.state) (refuse-ok _ _ u4 e4)),
      ok_injective h5,
    )

pub Kept-update_quorum :
    (env : Env) (caller : Address) (id : ℕ) (quorum : ℤ) (s t : State)
    → Kept s
    → update_quorum env caller id quorum s ≡ ok t
    → Kept t
Kept-update_quorum env caller id quorum s t k h =
    let (p, e, a, w) = update_quorum-stored env caller id quorum s t h in
    subst Kept w (Kept-set_proposal s id p k e _ (counters_same p _ refl refl refl))

-- The other calls leave the proposals and the ballots.
pub propose_admin-stored :
    (caller new_admin : Address) (s t : State)
    → propose_admin caller new_admin s ≡ ok t
    → record s { pending_admin = some new_admin } ≡ t
unfolding propose_admin
propose_admin-stored caller new_admin s t h =
    let (u0, e0, h0) = bind-ok (assert_admin s caller) _ t h in
    let (u1, e1, h1) = bind-ok (refuse (new_admin === zero_addr) invalid_new_admin) _ t h0 in
    ok_injective h1

pub accept_admin-stored :
    (caller : Address) (s t : State)
    → accept_admin caller s ≡ ok t
    → record s { admin = caller; pending_admin = none } ≡ t
unfolding accept_admin
accept_admin-stored caller s t h =
    let (current, e0, h0) = bind-ok (pending s.pending_admin) _ t h in
    let (u1, e1, h1) = bind-ok (refuse (not (caller === current)) not_pending_admin) _ t h0 in
    ok_injective h1

pub cancel_admin_transfer-stored :
    (caller : Address) (s t : State)
    → cancel_admin_transfer caller s ≡ ok t
    → record s { pending_admin = none } ≡ t
unfolding cancel_admin_transfer
cancel_admin_transfer-stored caller s t h =
    let (u0, e0, h0) = bind-ok (assert_admin s caller) _ t h in
    let (current, e1, h1) = bind-ok (pending s.pending_admin) _ t h0 in ok_injective h1

pub update_voting_token-stored :
    (caller new_token : Address) (s t : State)
    → update_voting_token caller new_token s ≡ ok t
    → record s { voting_token = new_token } ≡ t
unfolding update_voting_token
update_voting_token-stored caller new_token s t h =
    let (u0, e0, h0) = bind-ok (assert_admin s caller) _ t h in
    let (u1, e1, h1) = bind-ok (refuse (ltb 0 s.active_count) proposals_still_active) _ t h0 in
    ok_injective h1

pub pause-stored :
    (caller : Address) (s t : State) → pause caller s ≡ ok t → record s { paused = true } ≡ t
unfolding pause
pause-stored caller s t h =
    let (u0, e0, h0) = bind-ok (assert_admin s caller) _ t h in
    let (u1, e1, h1) = bind-ok (refuse s.paused contract_paused) _ t h0 in ok_injective h1

pub unpause-stored :
    (caller : Address) (s t : State) → unpause caller s ≡ ok t → record s { paused = false } ≡ t
unfolding unpause
unpause-stored caller s t h =
    let (u0, e0, h0) = bind-ok (assert_admin s caller) _ t h in
    let (u1, e1, h1) = bind-ok (refuse (not s.paused) not_paused) _ t h0 in ok_injective h1

pub set_min_proposal_balance-stored :
    (caller : Address) (value : ℤ) (s t : State)
    → set_min_proposal_balance caller value s ≡ ok t
    → record s { min_proposal_balance = value } ≡ t
unfolding set_min_proposal_balance
set_min_proposal_balance-stored caller value s t h =
    let (u0, e0, h0) = bind-ok (assert_admin s caller) _ t h in
    let (u1, e1, h1) = bind-ok (refuse (is_negative value) insufficient_balance) _ t h0 in
    ok_injective h1

pub set_proposal_cooldown-stored :
    (caller : Address) (value : ℕ) (s t : State)
    → set_proposal_cooldown caller value s ≡ ok t
    → record s { proposal_cooldown = value } ≡ t
unfolding set_proposal_cooldown
set_proposal_cooldown-stored caller value s t h =
    let (u0, e0, h0) = bind-ok (assert_admin s caller) _ t h in ok_injective h0

pub set_restrict_admin_vote-stored :
    (caller : Address) (value : Bool) (s t : State)
    → set_restrict_admin_vote caller value s ≡ ok t
    → record s { restrict_admin_vote = value } ≡ t
unfolding set_restrict_admin_vote
set_restrict_admin_vote-stored caller value s t h =
    let (u0, e0, h0) = bind-ok (assert_admin s caller) _ t h in ok_injective h0
