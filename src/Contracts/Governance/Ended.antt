-- ===== src/Contracts/Governance/Ended.antt =====
-- contracts/governance/src/lib.rs: a proposal whose vote has ended.
use cosmosvote.Prelude.{
  ℕ, ◌≡◌, refl, sym, ap, ◌∙◌, subst, ◌≢◌, ◌⊎◌, inl, inr, Option, some, List, [], ◌∷◌,
}
use cosmosvote.Frontend.Proposals.{active, passed, executed}
use cosmosvote.Contracts.Governance.{Proposal, State, Env}
use cosmosvote.Contracts.Governance.Admin.{deployed}
use cosmosvote.Contracts.Governance.History.{Call, call, settled, history}
use cosmosvote.Contracts.Governance.Kept.{Kept}
use cosmosvote.Contracts.Governance.Tallied.{Kept-call, Kept-settled, history-Kept}
use cosmosvote.Contracts.Governance.LifeCycle.{
  Move, editing, finalising, cancelling, executing, SlotMoved,
}
use cosmosvote.Contracts.Governance.Decided.{Moved-step}

-- A proposal and what can become of it.
abbrev pub IsAtRest : Proposal → Proposal → Type 0
IsAtRest p q = (p ≡ q) ⊎ ((p.state ≡ passed) × (record p { state = executed } ≡ q))

Move-IsAtRest : (p q : Proposal) → p.state ≢ active → Move p q → IsAtRest p q
Move-IsAtRest _ _ n (editing p q a f) = absurd (n a)
Move-IsAtRest _ _ n (finalising p a) = absurd (n a)
Move-IsAtRest _ _ n (cancelling p reason a) = absurd (n a)
Move-IsAtRest _ _ n (executing p a) = inr (a, refl)

-- What is at rest after one that is at rest.
IsAtRest-trans : (p q r : Proposal) → IsAtRest p q → IsAtRest q r → IsAtRest p r
IsAtRest-trans p q r (inl e) h = subst (λ x. IsAtRest x r) (sym e) h
IsAtRest-trans p q r (inr (a, e)) (inl f) = inr (a, e ∙ f)
IsAtRest-trans p q r (inr (a, e)) (inr (b, f)) =
    let x : executed ≡ passed = ap (λ z. z.state) e ∙ b in absurd cc

IsAtRest-state : (p q : Proposal) → p.state ≢ active → IsAtRest p q → q.state ≢ active
IsAtRest-state p q n (inl e) = subst (λ x. x.state ≢ active) e n
IsAtRest-state p q n (inr (a, e)) = λ h. let x : executed ≡ active = ap (λ z. z.state) e ∙ h in cc

SlotMoved-IsAtRest :
    (o : Option Proposal) (p : Proposal)
    → p.state ≢ active
    → SlotMoved (some p) o
    → (q : Proposal) × (o ≡ some q) × IsAtRest p q
SlotMoved-IsAtRest o p n (q, e, m) =
    (q, e, elim m [ inl h ↦ inl h | inr v ↦ Move-IsAtRest p q n v ])

settle :
    (s : State) (cs : List (Env × Call)) (id : ℕ) (p : Proposal)
    → Kept s
    → s.proposals id ≡ some p
    → p.state ≢ active
    → (q : Proposal) × ((history s cs).proposals id ≡ some q) × IsAtRest p q
unfolding history
settle s [] id p k e n = (p, e, inl refl)
settle s ((env, c) ∷ cs) id p k e n =
    let t = settled s (call env c s) in
    let (q, f, m) =
      SlotMoved-IsAtRest (t.proposals id) p n
        (subst (λ o. SlotMoved o (t.proposals id)) e (Moved-step id env c s k)) in
    let (r, g, l) =
      settle t cs id q (Kept-settled s (call env c s) k (λ u h. Kept-call env c s u k h)) f
        (IsAtRest-state p q n m) in
    (r, g, IsAtRest-trans p q r m l)

-- A proposal of a contract that was deployed and called in any way, once it is not active any more, is
-- never changed by any later calls, its tally and its quorum included, but that a passed one can become
-- executed.
pub history-IsAtRest :
    (before later : List (Env × Call)) (id : ℕ) (p : Proposal)
    → (history deployed before).proposals id ≡ some p
    → p.state ≢ active
    → (q : Proposal) × ((history (history deployed before) later).proposals id ≡ some q)
      × ((p ≡ q) ⊎ ((p.state ≡ passed) × (record p { state = executed } ≡ q)))
history-IsAtRest before later id p e n =
    settle (history deployed before) later id p (history-Kept before) e n
