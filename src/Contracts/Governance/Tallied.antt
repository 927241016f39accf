-- ===== src/Contracts/Governance/Tallied.antt =====
-- contracts/governance/src/lib.rs: after any calls, the tally of each proposal counts its ballots.
use cosmosvote.Prelude.{◌≡◌, refl, subst, List, [], ◌∷◌, Result, ok, throws}
use cosmosvote.Frontend.Errors.{ContractError}
use cosmosvote.Contracts.Governance.{State, Env}
use cosmosvote.Contracts.Governance.Admin.{deployed}
use cosmosvote.Contracts.Governance.History.{
  Call, create_proposal, amend_proposal, cast_vote, retract_vote, change_vote, finalise, execute,
  cancel, initialize, update_quorum, propose_admin, accept_admin, cancel_admin_transfer,
  update_voting_token, pause, unpause, set_min_proposal_balance, set_proposal_cooldown,
  set_restrict_admin_vote, call, settled, history,
}
use cosmosvote.Contracts.Governance.Kept.{Kept}
use cosmosvote.Contracts.Governance.Invariant.{
  Kept-create_proposal, Kept-amend_proposal, Kept-cast_vote, Kept-retract_vote, Kept-change_vote,
  Kept-finalise, Kept-execute, Kept-cancel,
}
use cosmosvote.Contracts.Governance.Configured.{
  Kept-deployed, Kept-initialize, Kept-update_quorum, propose_admin-stored, accept_admin-stored,
  cancel_admin_transfer-stored, update_voting_token-stored, pause-stored, unpause-stored,
  set_min_proposal_balance-stored, set_proposal_cooldown-stored, set_restrict_admin_vote-stored,
}

pub Kept-call : (env : Env) (c : Call) (s t : State) → Kept s → call env c s ≡ ok t → Kept t
unfolding call
Kept-call env (create_proposal proposer draft) s t k h =
    Kept-create_proposal env proposer draft s t k h
Kept-call env (amend_proposal proposer id title text) s t k h =
    Kept-amend_proposal proposer id title text s t k h
Kept-call env (cast_vote voter id vote) s t k h = Kept-cast_vote env voter id vote s t k h
Kept-call env (retract_vote voter id) s t k h = Kept-retract_vote env voter id s t k h
Kept-call env (change_vote voter id vote) s t k h = Kept-change_vote env voter id vote s t k h
Kept-call env (finalise id) s t k h = Kept-finalise env id s t k h
Kept-call env (execute treasury caller id) s t k h = Kept-execute treasury caller id s t k h
Kept-call env (cancel caller id reason) s t k h = Kept-cancel caller id reason s t k h
Kept-call env (initialize setup) s t k h = Kept-initialize setup s t k h
Kept-call env (update_quorum caller id quorum) s t k h =
    Kept-update_quorum env caller id quorum s t k h
Kept-call env (propose_admin caller new_admin) s t k h =
    subst Kept (propose_admin-stored caller new_admin s t h) k
Kept-call env (accept_admin caller) s t k h = subst Kept (accept_admin-stored caller s t h) k
Kept-call env (cancel_admin_transfer caller) s t k h =
    subst Kept (cancel_admin_transfer-stored caller s t h) k
Kept-call env (update_voting_token caller token) s t k h =
    subst Kept (update_voting_token-stored caller token s t h) k
Kept-call env (pause caller) s t k h = subst Kept (pause-stored caller s t h) k
Kept-call env (unpause caller) s t k h = subst Kept (unpause-stored caller s t h) k
Kept-call env (set_min_proposal_balance caller value) s t k h =
    subst Kept (set_min_proposal_balance-stored caller value s t h) k
Kept-call env (set_proposal_cooldown caller value) s t k h =
    subst Kept (set_proposal_cooldown-stored caller value s t h) k
Kept-call env (set_restrict_admin_vote caller value) s t k h =
    subst Kept (set_restrict_admin_vote-stored caller value s t h) k

pub Kept-settled :
    (s : State) (r : Result ContractError State)
    → Kept s
    → ((t : State) → r ≡ ok t → Kept t)
    → Kept (settled s r)
unfolding settled
Kept-settled s (ok t) k h = h t refl
Kept-settled s (throws e) k h = k

pub Kept-history : (s : State) (cs : List (Env × Call)) → Kept s → Kept (history s cs)
unfolding history
Kept-history s [] k = k
Kept-history s ((env, c) ∷ cs) k =
    Kept-history (settled s (call env c s)) cs
      (Kept-settled s (call env c s) k (λ t h. Kept-call env c s t k h))

-- Whatever calls are made of a contract that is deployed, in any order and at any times, the three counters
-- of a proposal are the weights of the ballots that are stored for it, those who are marked to have voted
-- are the voters of these ballots, none of them twice, and an identifier with no proposal has none.
pub history-Kept : (cs : List (Env × Call)) → Kept (history deployed cs)
history-Kept cs = Kept-history deployed cs Kept-deployed
