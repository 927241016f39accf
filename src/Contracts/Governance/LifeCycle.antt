-- ===== src/Contracts/Governance/LifeCycle.antt =====
-- The life of a proposal of contracts/governance/src/lib.rs: how a call can change one that is there.
use cosmosvote.Prelude.{
  ℤ, ℕ, ◌+◌, ◌≡◌, refl, sym, ap, ◌∙◌, subst, ◌⊎◌, inl, inr, Option, none, some, arith, JsString,
  ◌==◌, ==_iff, Bool-cases, ok,
}
use cosmosvote.Frontend.Proposals.{active, passed, executed, cancelled, VoteType, yes, no, abstain}
use cosmosvote.Contracts.Governance.{Address, Proposal, State, Env, set_proposal, end_active}
use cosmosvote.Contracts.Governance.Voting.{
  subtract_weight, store_vote, cast_vote, remove_vote, retract_vote, store_change, change_vote,
}
use cosmosvote.Contracts.Governance.Proposing.{
  Draft, proposal_of, store_new, create_proposal, amend_proposal, outcome, finalise, Treasury,
  execute, cancel,
}
use cosmosvote.Contracts.Governance.Admin.{update_quorum}
use cosmosvote.Contracts.Governance.Calls.{
  added, cast_vote-stored, retract_vote-stored, change_vote-stored,
}
use cosmosvote.Contracts.Governance.Ends.{
  create_proposal-stored, amend_proposal-stored, finalise-stored, execute-stored, cancel-stored,
}
use cosmosvote.Contracts.Governance.Configured.{update_quorum-stored}
use cosmosvote.Contracts.Governance.Kept.{Fresh}

-- What no call changes.
abbrev pub IsFixed : Proposal → Proposal → Type 0
IsFixed p q =
    (q.state ≡ p.state)
    × (q.id ≡ p.id)
    × (q.proposer ≡ p.proposer)
    × (q.start_time ≡ p.start_time)
    × (q.end_time ≡ p.end_time)
    × (q.snapshot_ledger ≡ p.snapshot_ledger)

pub data Move : Proposal → Proposal → Type 0 where
  editing : (p q : Proposal) → p.state ≡ active → IsFixed p q → Move p q
  finalising :
      (p : Proposal)
      → p.state ≡ active
      → Move p (record p { state = outcome p (p.votes_yes + p.votes_no + p.votes_abstain) })
  cancelling :
      (p : Proposal) (reason : Option JsString)
      → p.state ≡ active
      → Move p (record p { state = cancelled; cancellation_reason = reason })
  executing : (p : Proposal) → p.state ≡ passed → Move p (record p { state = executed })

-- A proposal that is there stays, and is what it was or has made a move; one that was not is active.
abbrev pub SlotMoved : Option Proposal → Option Proposal → Type 0
SlotMoved none o = (q : Proposal) → o ≡ some q → q.state ≡ active
SlotMoved (some p) o = (q : Proposal) × (o ≡ some q) × ((p ≡ q) ⊎ Move p q)

abbrev pub Moved : ℕ → State → State → Type 0
Moved id s t = SlotMoved (s.proposals id) (t.proposals id)

pub SlotMoved-refl : (o : Option Proposal) → SlotMoved o o
SlotMoved-refl none = λ q h. absurd (let x : ◌≡◌ {A = Option Proposal} none (some q) = h in cc)
SlotMoved-refl (some p) = (p, refl, inl refl)

SlotMoved-new : (b : Proposal) → b.state ≡ active → SlotMoved none (some b)
SlotMoved-new b a q h = let same : b ≡ q = cc in subst (λ x. x.state ≡ active) same a

IsFixed-added : (v : VoteType) (w : ℕ) (p : Proposal) → IsFixed p (added v w p)
unfolding added
IsFixed-added yes w p = (refl, refl, refl, refl, refl, refl)
IsFixed-added no w p = (refl, refl, refl, refl, refl, refl)
IsFixed-added abstain w p = (refl, refl, refl, refl, refl, refl)

IsFixed-subtract_weight : (v : VoteType) (w : ℕ) (p : Proposal) → IsFixed p (subtract_weight v w p)
unfolding subtract_weight
IsFixed-subtract_weight yes w p = (refl, refl, refl, refl, refl, refl)
IsFixed-subtract_weight no w p = (refl, refl, refl, refl, refl, refl)
IsFixed-subtract_weight abstain w p = (refl, refl, refl, refl, refl, refl)

IsFixed-trans : (p q r : Proposal) → IsFixed p q → IsFixed q r → IsFixed p r
IsFixed-trans p q r (a, b, c, d, e, f) (a2, b2, c2, d2, e2, f2) =
    (a2 ∙ a, b2 ∙ b, c2 ∙ c, d2 ∙ d, e2 ∙ e, f2 ∙ f)

module _ (id : ℕ) (s : State) where
  -- A write of one proposal moves that one alone.
  Moved-at :
      (n : ℕ) (p0 q0 : Proposal)
      → s.proposals n ≡ some p0
      → Move p0 q0
      → Moved id s (set_proposal n q0 s)
  unfolding set_proposal
  Moved-at n p0 q0 f m = elim (Bool-cases (id == n)) [
    | inl h ↦
        let here : s.proposals id ≡ some p0 = ap s.proposals ((==_iff id n).0 h) ∙ f in
        rw h (subst (λ o. SlotMoved o (some q0)) (sym here) (q0, refl, inr m))
    | inr h ↦ rw h (SlotMoved-refl (s.proposals id))
  ]

  pub Moved-create_proposal :
      (env : Env) (proposer : Address) (draft : Draft) (t : State)
      → Fresh s.proposal_count s.proposals
      → create_proposal env proposer draft s ≡ ok t
      → Moved id s t
  unfolding proposal_of store_new set_proposal
  Moved-create_proposal env proposer draft t fresh h =
      let (r, w) = create_proposal-stored env proposer draft s t h in
      subst (Moved id s) w (elim (Bool-cases (id == s.proposal_count)) [
        | inl x ↦
            let at : id ≡ s.proposal_count = (==_iff id s.proposal_count).0 x in
            let empty = fresh id (omega arith) in
            let b = proposal_of env proposer draft s.proposal_count in
            rw x (subst (λ o. SlotMoved o (some b)) (sym empty) (SlotMoved-new b refl))
        | inr x ↦ rw x (SlotMoved-refl (s.proposals id))
      ])

  pub Moved-cast_vote :
      (env : Env) (voter : Address) (n : ℕ) (vote : VoteType) (t : State)
      → cast_vote env voter n vote s ≡ ok t
      → Moved id s t
  unfolding store_vote set_proposal
  Moved-cast_vote env voter n vote t h =
      let (p0, f, a, x, w) = cast_vote-stored env voter n vote s t h in
      subst (Moved id s) w (Moved-at n p0 _ f (editing p0 _ a (IsFixed-added vote _ p0)))

  pub Moved-retract_vote :
      (env : Env) (voter : Address) (n : ℕ) (t : State)
      → retract_vote env voter n s ≡ ok t
      → Moved id s t
  unfolding remove_vote set_proposal
  Moved-retract_vote env voter n t h =
      let (p0, b, f, a, r, w) = retract_vote-stored env voter n s t h in
      subst (Moved id s) w
        (Moved-at n p0 _ f (editing p0 _ a (IsFixed-subtract_weight b.vote b.weight p0)))

  pub Moved-change_vote :
      (env : Env) (voter : Address) (n : ℕ) (vote : VoteType) (t : State)
      → change_vote env voter n vote s ≡ ok t
      → Moved id s t
  unfolding store_change set_proposal
  Moved-change_vote env voter n vote t h =
      let (p0, b, f, a, r, d, w) = change_vote-stored env voter n vote s t h in
      let less = subtract_weight b.vote b.weight p0 in
      subst (Moved id s) w (
        Moved-at n p0 _ f (
          editing p0 _ a (
            IsFixed-trans p0 less (added vote b.weight less)
              (IsFixed-subtract_weight b.vote b.weight p0) (IsFixed-added vote b.weight less))))

  pub Moved-amend_proposal :
      (proposer : Address) (n : ℕ) (title text : JsString) (t : State)
      → amend_proposal proposer n title text s ≡ ok t
      → Moved id s t
  Moved-amend_proposal proposer n title text t h =
      let (p0, f, a, w) = amend_proposal-stored proposer n title text s t h in
      subst (Moved id s) w (Moved-at n p0 _ f (editing p0 _ a (refl, refl, refl, refl, refl, refl)))

  pub Moved-update_quorum :
      (env : Env) (caller : Address) (n : ℕ) (quorum : ℤ) (t : State)
      → update_quorum env caller n quorum s ≡ ok t
      → Moved id s t
  Moved-update_quorum env caller n quorum t h =
      let (p0, f, a, w) = update_quorum-stored env caller n quorum s t h in
      subst (Moved id s) w (Moved-at n p0 _ f (editing p0 _ a (refl, refl, refl, refl, refl, refl)))

  pub Moved-finalise : (env : Env) (n : ℕ) (t : State) → finalise env n s ≡ ok t → Moved id s t
  unfolding end_active
  Moved-finalise env n t h =
      let (p0, f, a, l, w) = finalise-stored env n s t h in
      subst (Moved id s) w (Moved-at n p0 _ f (finalising p0 a))

  pub Moved-execute :
      (treasury : Option Treasury) (caller : Address) (n : ℕ) (t : State)
      → execute treasury caller n s ≡ ok t
      → Moved id s t
  Moved-execute treasury caller n t h =
      let (p0, f, a, q, w) = execute-stored treasury caller n s t h in
      subst (Moved id s) w (Moved-at n p0 _ f (executing p0 a))

  pub Moved-cancel :
      (caller : Address) (n : ℕ) (reason : Option JsString) (t : State)
      → cancel caller n reason s ≡ ok t
      → Moved id s t
  unfolding end_active
  Moved-cancel caller n reason t h =
      let (p0, f, a, w) = cancel-stored caller n reason s t h in
      subst (Moved id s) w (Moved-at n p0 _ f (cancelling p0 reason a))
