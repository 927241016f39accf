-- ===== src/Contracts/Governance/Admin.antt =====
-- contracts/governance/src/lib.rs: the making of the contract and the calls of its administrator.
use cosmosvote.Prelude.{
  ℤ, pos, negsuc, ℕ, ◌+◌, ◌-◌, ◌/◌, Option, none, some, Bool, true, false, not, [], js, ◌===◌, ltb,
  if◌then◌else◌, Result, ok, throws, ◌>>=◌, ◌>>◌,
}
use cosmosvote.Frontend.Errors.{
  ContractError, already_initialized, invalid_quorum, quorum_exceeds_supply, proposal_not_active,
  quorum_update_not_allowed, invalid_new_admin, proposals_still_active, no_pending_admin,
  not_pending_admin, contract_paused, not_paused, insufficient_balance,
}
use cosmosvote.Contracts.Governance.{
  Address, State, Env, refuse, assert_admin, found, is_active, set_proposal,
}
use cosmosvote.Contracts.Governance.Proposing.{magnitude}

-- The storage of a contract that is only deployed. No account has the empty address, which stands for an
-- administrator who is not set.
abbrev pub deployed : State
deployed = record {
  ready = false;
  paused = false;
  admin = js "";
  pending_admin = none;
  voting_token = js "";
  min_proposal_balance = pos 0;
  proposal_cooldown = 0;
  min_quorum_bps = 0;
  restrict_admin_vote = false;
  proposal_count = 0;
  active_count = 0;
  last_proposal_time = λ a. none;
  proposals = λ id. none;
  voted = λ id. [];
  votes = λ id. [];
}

-- What a caller of `initialize` gives, but the treasury.
pub record Setup : Type 0 where
  pub admin : Address
  pub voting_token : Address
  pub min_proposal_balance : ℤ
  pub proposal_cooldown : ℕ
  pub min_quorum_bps : ℕ
  pub restrict_admin_vote : Bool

unfoldable pub initialize : Setup → State → Result ContractError State
initialize setup s =
    if s.ready
    then throws already_initialized
    else ok (record s {
      ready = true;
      paused = false;
      admin = setup.admin;
      voting_token = setup.voting_token;
      min_proposal_balance = setup.min_proposal_balance;
      proposal_cooldown = setup.proposal_cooldown;
      min_quorum_bps = setup.min_quorum_bps;
      restrict_admin_vote = setup.restrict_admin_vote;
      proposal_count = 0;
    })

-- The quorum of a proposal can change in the first tenth of its time.
unfoldable pub update_quorum : Env → Address → ℕ → ℤ → State → Result ContractError State
unfolding assert_admin set_proposal
update_quorum env caller id new_quorum s = do
  assert_admin s caller
  refuse (not (ltb 0 (magnitude new_quorum))) invalid_quorum
  refuse (ltb env.total_supply (magnitude new_quorum)) quorum_exceeds_supply
  p ← found (s.proposals id)
  refuse (not (is_active p.state)) proposal_not_active
  refuse (ltb (p.start_time + (p.end_time - p.start_time) / 10) env.timestamp)
      quorum_update_not_allowed
  ok (set_proposal id (record p { quorum = magnitude new_quorum }) s)

-- The account whose key is all zeros.
abbrev pub zero_addr : Address
zero_addr = js "GAAAAAAAAAAAAAAAAAAAAAAAAAAAAAAAAAAAAAAAAAAAAAAAAAAAAWHF"

unfoldable pub propose_admin : Address → Address → State → Result ContractError State
unfolding assert_admin
propose_admin caller new_admin s = do
  assert_admin s caller
  refuse (new_admin === zero_addr) invalid_new_admin
  ok (record s { pending_admin = some new_admin })

abbrev pub pending : Option Address → Result ContractError Address
pending none = throws no_pending_admin
pending (some a) = ok a

unfoldable pub accept_admin : Address → State → Result ContractError State
accept_admin caller s = do
  current ← pending s.pending_admin
  refuse (not (caller === current)) not_pending_admin
  ok (record s { admin = caller; pending_admin = none })

unfoldable pub cancel_admin_transfer : Address → State → Result ContractError State
unfolding assert_admin
cancel_admin_transfer caller s = do
  assert_admin s caller
  current ← pending s.pending_admin
  ok (record s { pending_admin = none })

unfoldable pub update_voting_token : Address → Address → State → Result ContractError State
unfolding assert_admin
update_voting_token caller new_token s = do
  assert_admin s caller
  refuse (ltb 0 s.active_count) proposals_still_active
  ok (record s { voting_token = new_token })

unfoldable pub pause : Address → State → Result ContractError State
unfolding assert_admin
pause caller s = do
  assert_admin s caller
  refuse s.paused contract_paused
  ok (record s { paused = true })

unfoldable pub unpause : Address → State → Result ContractError State
unfolding assert_admin
unpause caller s = do
  assert_admin s caller
  refuse (not s.paused) not_paused
  ok (record s { paused = false })

abbrev pub is_negative : ℤ → Bool
is_negative (pos n) = false
is_negative (negsuc n) = true

unfoldable pub set_min_proposal_balance : Address → ℤ → State → Result ContractError State
unfolding assert_admin
set_min_proposal_balance caller new_value s = do
  assert_admin s caller
  refuse (is_negative new_value) insufficient_balance
  ok (record s { min_proposal_balance = new_value })

unfoldable pub set_proposal_cooldown : Address → ℕ → State → Result ContractError State
unfolding assert_admin
set_proposal_cooldown caller new_value s = do
  assert_admin s caller
  ok (record s { proposal_cooldown = new_value })

unfoldable pub set_restrict_admin_vote : Address → Bool → State → Result ContractError State
unfolding assert_admin
set_restrict_admin_vote caller new_value s = do
  assert_admin s caller
  ok (record s { restrict_admin_vote = new_value })
