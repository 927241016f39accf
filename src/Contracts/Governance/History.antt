-- ===== src/Contracts/Governance/History.antt =====
-- The calls of contracts/governance/src/lib.rs that change its storage, and what a history of them leaves. A
-- call that is refused leaves the storage as it was.
use cosmosvote.Prelude.{ℤ, ℕ, Option, Bool, List, [], ◌∷◌, JsString, Result, ok, throws}
use cosmosvote.Frontend.Proposals.{VoteType}
use cosmosvote.Frontend.Errors.{ContractError}
use cosmosvote.Contracts.Governance.{Address, State, Env}
use cosmosvote.Contracts.Governance.Voting as Voting
use cosmosvote.Contracts.Governance.Proposing as Proposing
use cosmosvote.Contracts.Governance.Proposing.{Draft, Treasury}
use cosmosvote.Contracts.Governance.Admin as Admin
use cosmosvote.Contracts.Governance.Admin.{Setup}

pub data Call : Type 0 where
  create_proposal : Address → Draft → Call
  amend_proposal : Address → ℕ → JsString → JsString → Call
  cast_vote : Address → ℕ → VoteType → Call
  retract_vote : Address → ℕ → Call
  change_vote : Address → ℕ → VoteType → Call
  finalise : ℕ → Call
  execute : Option Treasury → Address → ℕ → Call
  cancel : Address → ℕ → Option JsString → Call
  initialize : Setup → Call
  update_quorum : Address → ℕ → ℤ → Call
  propose_admin : Address → Address → Call
  accept_admin : Address → Call
  cancel_admin_transfer : Address → Call
  update_voting_token : Address → Address → Call
  pause : Address → Call
  unpause : Address → Call
  set_min_proposal_balance : Address → ℤ → Call
  set_proposal_cooldown : Address → ℕ → Call
  set_restrict_admin_vote : Address → Bool → Call

unfoldable pub call : Env → Call → State → Result ContractError State
call env (create_proposal proposer draft) = Proposing.create_proposal env proposer draft
call env (amend_proposal proposer id title text) = Proposing.amend_proposal proposer id title text
call env (cast_vote voter id vote) = Voting.cast_vote env voter id vote
call env (retract_vote voter id) = Voting.retract_vote env voter id
call env (change_vote voter id vote) = Voting.change_vote env voter id vote
call env (finalise id) = Proposing.finalise env id
call env (execute treasury caller id) = Proposing.execute treasury caller id
call env (cancel caller id reason) = Proposing.cancel caller id reason
call env (initialize setup) = Admin.initialize setup
call env (update_quorum caller id quorum) = Admin.update_quorum env caller id quorum
call env (propose_admin caller new_admin) = Admin.propose_admin caller new_admin
call env (accept_admin caller) = Admin.accept_admin caller
call env (cancel_admin_transfer caller) = Admin.cancel_admin_transfer caller
call env (update_voting_token caller token) = Admin.update_voting_token caller token
call env (pause caller) = Admin.pause caller
call env (unpause caller) = Admin.unpause caller
call env (set_min_proposal_balance caller value) = Admin.set_min_proposal_balance caller value
call env (set_proposal_cooldown caller value) = Admin.set_proposal_cooldown caller value
call env (set_restrict_admin_vote caller value) = Admin.set_restrict_admin_vote caller value

unfoldable pub settled : State → Result ContractError State → State
settled s (ok t) = t
settled s (throws e) = s

unfoldable pub history : State → List (Env × Call) → State
unfolding settled
history s [] = s
history s ((env, c) ∷ cs) = history (settled s (call env c s)) cs
