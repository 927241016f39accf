-- ===== src/Contracts/Governance/Proposing.antt =====
-- contracts/governance/src/lib.rs: the making of proposals, and their end. Choices, which types.rs and
-- lib.rs disagree about, are left out; the treasury is a parameter.
use cosmosvote.Prelude.{
  ℤ, pos, negsuc, ℕ, ◌+◌, ◌*◌, ◌/◌, Option, none, some, Bool, true, false, not, ◌&&◌, ◌||◌,
  JsString, ◌===◌, ltb, leb, ◌==◌, if◌then◌else◌, length, Result, ok, throws, ◌>>=◌, ◌>>◌,
}
use cosmosvote.Frontend.Proposals.{ProposalState, active, passed, rejected, executed, cancelled}
use cosmosvote.Frontend.Errors as Errors
use cosmosvote.Frontend.Errors.{
  ContractError, proposals_still_active, quorum_exceeds_supply, quorum_below_floor,
  insufficient_balance, not_proposer, proposal_not_active, votes_already_cast, invalid_title,
  invalid_description, voting_still_open, proposal_not_passed, arithmetic_overflow,
}
use cosmosvote.Frontend.Forms.Contract.{check_inputs}
use cosmosvote.Contracts.Governance.{
  Address, TreasuryAction, Proposal, State, Env, refuse, assert_ready, assert_admin, found,
  is_active, i128_limit, checked_add, set_proposal, end_active,
}

-- What a caller of `create_proposal` gives.
pub record Draft : Type 0 where
  pub title : JsString
  pub description : JsString
  pub quorum : ℤ
  pub duration : ℕ
  pub link : Option JsString
  pub treasury_action : Option TreasuryAction

abbrev pub magnitude : ℤ → ℕ
magnitude (pos n) = n
magnitude (negsuc n) = 0

abbrev pub link_length : Option JsString → Option ℕ
link_length none = none
link_length (some l) = some (length l)

-- The floor under the quorum, in basis points of the supply.
unfoldable pub floor_check : ℕ → ℕ → ℕ → Result ContractError (Unit {0})
floor_check bps supply quorum =
    if not (ltb 0 bps)
    then ok tt
    else if not (ltb (supply * bps) i128_limit)
    then throws arithmetic_overflow
    else refuse (ltb quorum (supply * bps / 10000)) quorum_below_floor

-- `min_balance > 0` and `bal < min_balance`.
abbrev pub is_short : ℤ → ℕ → Bool
is_short (pos least) balance = ltb 0 least && ltb balance least
is_short (negsuc n) balance = false

unfoldable pub balance_check : State → Env → Address → Result ContractError (Unit {0})
balance_check s env proposer =
    refuse (is_short s.min_proposal_balance (env.balance proposer)) insufficient_balance

abbrev pub too_soon : Option ℕ → ℕ → ℕ → Bool
too_soon none cooldown now = false
too_soon (some last) cooldown now = ltb now (last + cooldown)

unfoldable pub cooldown_check : State → Env → Address → Result ContractError (Unit {0})
cooldown_check s env proposer =
    refuse
      (ltb 0 s.proposal_cooldown
        && too_soon (s.last_proposal_time proposer) s.proposal_cooldown env.timestamp)
      Errors.proposal_cooldown

unfoldable pub proposal_of : Env → Address → Draft → ℕ → Proposal
proposal_of env proposer draft id = record {
  id = id;
  proposer = proposer;
  title = draft.title;
  description = draft.description;
  link = draft.link;
  votes_yes = 0;
  votes_no = 0;
  votes_abstain = 0;
  quorum = magnitude draft.quorum;
  start_time = env.timestamp;
  end_time = env.timestamp + draft.duration;
  state = active;
  snapshot_ledger = env.sequence;
  voter_count = 0;
  treasury_action = draft.treasury_action;
  cancellation_reason = none;
}

-- The writes of `create_proposal`.
unfoldable pub store_new : Env → Address → Draft → State → State
unfolding proposal_of set_proposal
store_new env proposer draft s =
    record (set_proposal s.proposal_count (proposal_of env proposer draft s.proposal_count) s) {
      proposal_count = s.proposal_count + 1;
      active_count = s.active_count + 1;
      last_proposal_time =
          λ a. if proposer === a then some env.timestamp else s.last_proposal_time a;
    }

-- The state behind the call; the identifier that it returns is the count before.
unfoldable pub create_proposal : Env → Address → Draft → State → Result ContractError State
unfolding assert_ready floor_check balance_check cooldown_check store_new
create_proposal env proposer draft s = do
  assert_ready s
  check_inputs (length draft.title) (length draft.description) (link_length draft.link) draft.quorum
      draft.duration
  refuse (leb 50 s.active_count) proposals_still_active
  refuse (ltb env.total_supply (magnitude draft.quorum)) quorum_exceeds_supply
  floor_check s.min_quorum_bps env.total_supply (magnitude draft.quorum)
  balance_check s env proposer
  cooldown_check s env proposer
  ok (store_new env proposer draft s)

unfoldable pub total_votes : Proposal → Result ContractError ℕ
unfolding checked_add
total_votes p = do two ← checked_add p.votes_yes p.votes_no; checked_add two p.votes_abstain

abbrev pub bad_text : ℕ → JsString → Bool
bad_text limit text = length text == 0 || ltb limit (length text)

unfoldable pub amend_proposal :
    Address → ℕ → JsString → JsString → State → Result ContractError State
unfolding assert_ready total_votes set_proposal
amend_proposal proposer id new_title new_description s = do
  assert_ready s
  p ← found (s.proposals id)
  refuse (not (p.proposer === proposer)) not_proposer
  refuse (not (is_active p.state)) proposal_not_active
  total ← total_votes p
  refuse (ltb 0 total) votes_already_cast
  refuse (bad_text 128 new_title) invalid_title
  refuse (bad_text 1024 new_description) invalid_description
  ok (set_proposal id (record p { title = new_title; description = new_description }) s)

unfoldable pub outcome : Proposal → ℕ → ProposalState
outcome p total = if leb p.quorum total && ltb p.votes_no p.votes_yes then passed else rejected

unfoldable pub finalise : Env → ℕ → State → Result ContractError State
unfolding assert_ready total_votes outcome set_proposal end_active
finalise env id s = do
  assert_ready s
  p ← found (s.proposals id)
  refuse (not (is_active p.state)) proposal_not_active
  refuse (leb env.timestamp p.end_time) voting_still_open
  total ← total_votes p
  ok (end_active (set_proposal id (record p { state = outcome p total }) s))

abbrev pub is_passed : ProposalState → Bool
is_passed passed = true
is_passed _ = false

-- The call of the treasury, where there is a treasury and something to disburse. If it fails, so does the
-- transaction.
abbrev pub Treasury : Type 0
Treasury = TreasuryAction → Result ContractError (Unit {0})

abbrev pub pay_out : Option Treasury → Option TreasuryAction → Result ContractError (Unit {0})
pay_out none action = ok tt
pay_out (some disburse) none = ok tt
pay_out (some disburse) (some action) = disburse action

unfoldable pub execute : Option Treasury → Address → ℕ → State → Result ContractError State
unfolding assert_admin set_proposal
execute treasury admin id s = do
  assert_admin s admin
  p ← found (s.proposals id)
  refuse (not (is_passed p.state)) proposal_not_passed
  pay_out treasury p.treasury_action
  ok (set_proposal id (record p { state = executed }) s)

unfoldable pub cancel : Address → ℕ → Option JsString → State → Result ContractError State
unfolding assert_admin set_proposal end_active
cancel admin id reason s = do
  assert_admin s admin
  p ← found (s.proposals id)
  refuse (not (is_active p.state)) proposal_not_active
  ok (end_active (set_proposal id (record p { state = cancelled; cancellation_reason = reason }) s))
