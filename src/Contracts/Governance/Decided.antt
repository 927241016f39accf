-- ===== src/Contracts/Governance/Decided.antt =====
-- contracts/governance/src/lib.rs: what becomes of a proposal, and what a passed one has.
use cosmosvote.Prelude.{
  ◌⊎◌, ℕ, ◌+◌, ◌≤◌, ◌<◌, ◌≡◌, refl, ap, ◌∙◌, subst, inl, inr, Option, none, some, List, [], ◌∷◌,
  arith, Result, ok, throws,
}
use cosmosvote.Frontend.Proposals.{active, passed, rejected, executed, yes, no, abstain}
use cosmosvote.Frontend.Errors.{ContractError}
use cosmosvote.Contracts.Governance.{Proposal, State, Env}
use cosmosvote.Contracts.Governance.Proposing.{outcome}
use cosmosvote.Contracts.Governance.Admin.{deployed}
use cosmosvote.Contracts.Governance.History.{
  Call, create_proposal, amend_proposal, cast_vote, retract_vote, change_vote, finalise, execute,
  cancel, initialize, update_quorum, propose_admin, accept_admin, cancel_admin_transfer,
  update_voting_token, pause, unpause, set_min_proposal_balance, set_proposal_cooldown,
  set_restrict_admin_vote, call, settled, history,
}
use cosmosvote.Contracts.Governance.Kept.{SlotKept, Kept}
use cosmosvote.Contracts.Governance.Tally.{weights}
use cosmosvote.Contracts.Governance.Tallied.{Kept-call, Kept-settled, history-Kept}
use cosmosvote.Contracts.Governance.Configured.{
  Kept-deployed, initialize-stored, propose_admin-stored, accept_admin-stored,
  cancel_admin_transfer-stored, update_voting_token-stored, pause-stored, unpause-stored,
  set_min_proposal_balance-stored, set_proposal_cooldown-stored, set_restrict_admin_vote-stored,
}
use cosmosvote.Contracts.Governance.LifeCycle.{
  Move, editing, finalising, cancelling, executing, SlotMoved, Moved, SlotMoved-refl,
  Moved-create_proposal, Moved-amend_proposal, Moved-cast_vote, Moved-retract_vote,
  Moved-change_vote, Moved-finalise, Moved-execute, Moved-cancel, Moved-update_quorum,
}

same_proposals : (id : ℕ) (s t : State) → s.proposals ≡ t.proposals → Moved id s t
same_proposals id s t h =
    subst (λ f. SlotMoved (s.proposals id) (f id)) h (SlotMoved-refl (s.proposals id))

Moved-call :
    (id : ℕ) (env : Env) (c : Call) (s t : State) → Kept s → call env c s ≡ ok t → Moved id s t
unfolding call
Moved-call id env (create_proposal proposer draft) s t k h =
    Moved-create_proposal id s env proposer draft t k.1 h
Moved-call id env (amend_proposal proposer n title text) s t k h =
    Moved-amend_proposal id s proposer n title text t h
Moved-call id env (cast_vote voter n vote) s t k h = Moved-cast_vote id s env voter n vote t h
Moved-call id env (retract_vote voter n) s t k h = Moved-retract_vote id s env voter n t h
Moved-call id env (change_vote voter n vote) s t k h = Moved-change_vote id s env voter n vote t h
Moved-call id env (finalise n) s t k h = Moved-finalise id s env n t h
Moved-call id env (execute treasury caller n) s t k h = Moved-execute id s treasury caller n t h
Moved-call id env (cancel caller n reason) s t k h = Moved-cancel id s caller n reason t h
Moved-call id env (initialize setup) s t k h = same_proposals id s t (initialize-stored setup s t h)
Moved-call id env (update_quorum caller n quorum) s t k h =
    Moved-update_quorum id s env caller n quorum t h
Moved-call id env (propose_admin caller new_admin) s t k h =
    same_proposals id s t (ap (λ x. x.proposals) (propose_admin-stored caller new_admin s t h))
Moved-call id env (accept_admin caller) s t k h =
    same_proposals id s t (ap (λ x. x.proposals) (accept_admin-stored caller s t h))
Moved-call id env (cancel_admin_transfer caller) s t k h =
    same_proposals id s t (ap (λ x. x.proposals) (cancel_admin_transfer-stored caller s t h))
Moved-call id env (update_voting_token caller token) s t k h =
    same_proposals id s t (ap (λ x. x.proposals) (update_voting_token-stored caller token s t h))
Moved-call id env (pause caller) s t k h =
    same_proposals id s t (ap (λ x. x.proposals) (pause-stored caller s t h))
Moved-call id env (unpause caller) s t k h =
    same_proposals id s t (ap (λ x. x.proposals) (unpause-stored caller s t h))
Moved-call id env (set_min_proposal_balance caller value) s t k h =
    same_proposals id s t
      (ap (λ x. x.proposals) (set_min_proposal_balance-stored caller value s t h))
Moved-call id env (set_proposal_cooldown caller value) s t k h =
    same_proposals id s t (ap (λ x. x.proposals) (set_proposal_cooldown-stored caller value s t h))
Moved-call id env (set_restrict_admin_vote caller value) s t k h =
    same_proposals id s t
      (ap (λ x. x.proposals) (set_restrict_admin_vote-stored caller value s t h))

Moved-settled :
    (id : ℕ) (s : State) (r : Result ContractError State)
    → ((t : State) → r ≡ ok t → Moved id s t)
    → Moved id s (settled s r)
unfolding settled
Moved-settled id s (ok t) h = h t refl
Moved-settled id s (throws e) h = SlotMoved-refl (s.proposals id)

pub Moved-step :
    (id : ℕ) (env : Env) (c : Call) (s : State) → Kept s → Moved id s (settled s (call env c s))
Moved-step id env c s k = Moved-settled id s (call env c s) (λ t h. Moved-call id env c s t k h)

-- Quorum and majority.
abbrev pub IsCarried : Proposal → Type 0
IsCarried p = (p.quorum ≤ p.votes_yes + p.votes_no + p.votes_abstain) × (p.votes_no < p.votes_yes)

-- What its state says of a proposal.
abbrev pub IsDecided : Proposal → Type 0
IsDecided p =
    (p.state ≡ passed → IsCarried p)
    × (p.state ≡ executed → IsCarried p)
    × (p.state ≡ rejected → ¬ IsCarried p)

outcome-IsDecided :
    (p : Proposal)
    → IsDecided (record p { state = outcome p (p.votes_yes + p.votes_no + p.votes_abstain) })
unfolding outcome
outcome-IsDecided p = (ground arith, ground arith, ground arith)

IsDecided-active : (q : Proposal) → q.state ≡ active → IsDecided q
IsDecided-active q a = (λ h. absurd cc, λ h. absurd cc, λ h. absurd cc)

IsDecided-Move : (p q : Proposal) → IsDecided p → Move p q → IsDecided q
IsDecided-Move _ _ d (editing p q a f) = IsDecided-active q (f.0 ∙ a)
IsDecided-Move _ _ d (finalising p a) = outcome-IsDecided p
IsDecided-Move _ _ d (cancelling p reason a) = (λ h. absurd cc, λ h. absurd cc, λ h. absurd cc)
IsDecided-Move _ _ d (executing p a) = (λ h. absurd cc, λ h. d.0 a, λ h. absurd cc)

IsDecided-SlotMoved :
    (o : Option Proposal) (q : Proposal)
    → ((p : Proposal) → o ≡ some p → IsDecided p)
    → SlotMoved o (some q)
    → IsDecided q
IsDecided-SlotMoved none q d m = IsDecided-active q (m q refl)
IsDecided-SlotMoved (some p) q d (r, e, m) =
    let same : r ≡ q = cc in
    subst IsDecided same
      (elim m [ inl h ↦ subst IsDecided h (d p refl) | inr v ↦ IsDecided-Move p r (d p refl) v ])

IsDecided-history :
    (s : State) (cs : List (Env × Call)) (id : ℕ)
    → Kept s
    → ((p : Proposal) → s.proposals id ≡ some p → IsDecided p)
    → (p : Proposal) → (history s cs).proposals id ≡ some p
    → IsDecided p
unfolding history
IsDecided-history s [] id k d p h = d p h
IsDecided-history s ((env, c) ∷ cs) id k d p h =
    let t = settled s (call env c s) in
    IsDecided-history t cs id (Kept-settled s (call env c s) k (λ u g. Kept-call env c s u k g))
      (λ q g.
        IsDecided-SlotMoved (s.proposals id) q d
          (subst (SlotMoved (s.proposals id)) g (Moved-step id env c s k)))
      p h

-- Whatever calls are made of a contract that is deployed: a proposal that is passed or executed has reached
-- its quorum with more weight for it than against it, both counted over the ballots that are stored for it.
pub history-IsCarried :
    (cs : List (Env × Call)) (id : ℕ) (p : Proposal)
    → (history deployed cs).proposals id ≡ some p
    → (p.state ≡ passed) ⊎ (p.state ≡ executed)
    → let bs = (history deployed cs).votes id in
      (p.quorum ≤ weights yes bs + weights no bs + weights abstain bs)
      × (weights no bs < weights yes bs)
history-IsCarried cs id p h e =
    let d =
      IsDecided-history deployed cs id Kept-deployed
        (λ q g. absurd (let x : ◌≡◌ {A = Option Proposal} none (some q) = g in cc)) p h in
    let carried : IsCarried p = elim e [ inl a ↦ d.0 a | inr a ↦ d.1 a ] in
    let t =
      subst (λ o. SlotKept o ((history deployed cs).voted id) ((history deployed cs).votes id)) h
        ((history-Kept cs).0 id) in
    rw (← (t.0 yes), ← (t.0 no), ← (t.0 abstain)) carried
