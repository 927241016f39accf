-- ===== src/Contracts/Governance.antt =====
-- contracts/governance/src/lib.rs, with the types of types.rs and the keys of storage.rs: the state, and in
-- the modules below the operations. An operation is modelled for a caller who is authorised. The amounts
-- of the token are natural numbers, and so are the tallies.
pub mod Proposing
pub mod Voting
pub mod Calls
pub mod Tally
pub mod Kept
pub mod Ends
pub mod Admin
pub mod History
pub mod Invariant
pub mod Configured
pub mod Tallied
pub mod LifeCycle
pub mod Decided
pub mod Ended
pub mod Accepting
mod Examples
use cosmosvote.Prelude.{
  ℤ, ℕ, ◌+◌, ◌-◌, Option, none, some, Bool, true, false, not, List, JsString, ◌===◌, ltb, ◌==◌,
  if◌then◌else◌, Result, ok, throws,
}
use cosmosvote.Frontend.Proposals.{ProposalState, active, VoteType}
use cosmosvote.Frontend.Errors.{
  ContractError, not_initialized, contract_paused, not_admin, proposal_not_found,
  arithmetic_overflow,
}

abbrev pub Address : Type 0
Address = JsString

pub data TreasuryAsset : Type 0 where
  native : TreasuryAsset
  token : Address → TreasuryAsset

pub record TreasuryAction : Type 0 where
  pub recipient : Address
  pub amount : ℤ
  pub asset : TreasuryAsset

-- Strings are lists of bytes. The choices of a proposal are left out; a reason of cancellation is kept, as
-- lib.rs writes it.
pub record Proposal : Type 0 where
  pub id : ℕ
  pub proposer : Address
  pub title : JsString
  pub description : JsString
  pub link : Option JsString
  pub votes_yes : ℕ
  pub votes_no : ℕ
  pub votes_abstain : ℕ
  pub quorum : ℕ
  pub start_time : ℕ
  pub end_time : ℕ
  pub state : ProposalState
  pub snapshot_ledger : ℕ
  pub voter_count : ℕ
  pub treasury_action : Option TreasuryAction
  pub cancellation_reason : Option JsString

-- A vote record, with the voter of its key.
pub record Ballot : Type 0 where
  pub voter : Address
  pub vote : VoteType
  pub weight : ℕ

-- The storage. Of the flags HasVoted of a proposal the voters are kept for whom it is true.
pub record State : Type 0 where
  pub ready : Bool
  pub paused : Bool
  pub admin : Address
  pub pending_admin : Option Address
  pub voting_token : Address
  pub min_proposal_balance : ℤ
  pub proposal_cooldown : ℕ
  pub min_quorum_bps : ℕ
  pub restrict_admin_vote : Bool
  pub proposal_count : ℕ
  pub active_count : ℕ
  pub last_proposal_time : Address → Option ℕ
  pub proposals : ℕ → Option Proposal
  pub voted : ℕ → List Address
  pub votes : ℕ → List Ballot

-- The ledger, and the voting token as the contract calls it.
pub record Env : Type 0 where
  pub timestamp : ℕ
  pub sequence : ℕ
  pub total_supply : ℕ
  pub balance : Address → ℕ
  pub balance_at : Address → ℕ → ℕ
  pub get_delegation : Address → Option Address

abbrev pub put_at {ℓ} : {A : Type ℓ} → ℕ → A → (ℕ → A) → ℕ → A
put_at id a f n = if n == id then a else f n

-- What is refused if a test holds.
abbrev pub refuse : Bool → ContractError → Result ContractError (Unit {0})
refuse true e = throws e
refuse false e = ok tt

unfoldable pub assert_ready : State → Result ContractError (Unit {0})
assert_ready s = if not s.ready then throws not_initialized else refuse s.paused contract_paused

unfoldable pub assert_admin : State → Address → Result ContractError (Unit {0})
assert_admin s caller = refuse (not (s.admin === caller)) not_admin

abbrev pub found : Option Proposal → Result ContractError Proposal
found none = throws proposal_not_found
found (some p) = ok p

abbrev pub is_active : ProposalState → Bool
is_active active = true
is_active _ = false

abbrev pub i128_limit : ℕ
i128_limit = 170141183460469231731687303715884105728

-- `checked_add` on i128.
unfoldable pub checked_add : ℕ → ℕ → Result ContractError ℕ
checked_add a b = if ltb (a + b) i128_limit then ok (a + b) else throws arithmetic_overflow

unfoldable pub set_proposal : ℕ → Proposal → State → State
set_proposal id p s = record s { proposals = put_at id (some p) s.proposals }

-- One proposal fewer is active.
unfoldable pub end_active : State → State
end_active s = record s {
  active_count = if ltb 0 s.active_count then s.active_count - 1 else s.active_count;
}
