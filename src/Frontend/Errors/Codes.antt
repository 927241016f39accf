-- ===== src/Frontend/Errors/Codes.antt =====
-- The codes of frontend/src/errors.ts against those of contracts/governance/src/types.rs.
use cosmosvote.Prelude.{
  ℕ, ◌-◌, ◌≡◌, refl, Option, none, some, ◌&&◌, ◌||◌, js, ◌===◌, lookup, leb, ◌==◌, if◌then◌else◌,
}
use cosmosvote.Frontend.Errors.{
  ErrorMessage, message, early_messages, late_messages, error_messages, ContractError,
  already_initialized, not_initialized, proposal_not_found, proposal_not_active,
  proposal_not_passed, invalid_title, invalid_description, invalid_quorum, quorum_exceeds_supply,
  invalid_duration_range, insufficient_balance, proposal_cooldown, quorum_below_floor,
  proposals_still_active, voting_not_started, voting_period_ended, voting_still_open, already_voted,
  no_voting_power, admin_vote_restricted, vote_not_found, vote_already_same, not_admin,
  invalid_new_admin, quorum_update_not_allowed, no_pending_admin, not_pending_admin, not_proposer,
  votes_already_cast, invalid_link, contract_paused, not_paused, arithmetic_overflow,
  execution_failed, error_code, error_name,
}

abbrev pub code_of : Option ErrorMessage → Option ℕ
code_of none = none
code_of (some m) = some m.code

-- Not in the messages: 20, 21, 29, 32 to 37 and 60. Two less than in the contract: 22 to 28.
abbrev pub code_in_messages : ℕ → Option ℕ
code_in_messages c =
    if leb 22 c && leb c 28
    then some (c - 2)
    else if c == 20 || c == 21 || c == 29 || (leb 32 c && leb c 37) || c == 60
    then none
    else some c

-- The message under the name of an error of the governance contract has the contract's code, except
-- for the seven errors about voting, 22 to 28, whose messages give a code that is two less; ten
-- errors have no message.
pub error_messages_code :
    (e : ContractError)
    → code_of (lookup (error_name e) error_messages) ≡ code_in_messages (error_code e)
unfolding error_messages early_messages late_messages message error_name error_code lookup js ◌===◌
error_messages_code already_initialized = refl
error_messages_code not_initialized = refl
error_messages_code proposal_not_found = refl
error_messages_code proposal_not_active = refl
error_messages_code proposal_not_passed = refl
error_messages_code invalid_title = refl
error_messages_code invalid_description = refl
error_messages_code invalid_quorum = refl
error_messages_code quorum_exceeds_supply = refl
error_messages_code invalid_duration_range = refl
error_messages_code insufficient_balance = refl
error_messages_code proposal_cooldown = refl
error_messages_code quorum_below_floor = refl
error_messages_code proposals_still_active = refl
error_messages_code voting_not_started = refl
error_messages_code voting_period_ended = refl
error_messages_code voting_still_open = refl
error_messages_code already_voted = refl
error_messages_code no_voting_power = refl
error_messages_code admin_vote_restricted = refl
error_messages_code vote_not_found = refl
error_messages_code vote_already_same = refl
error_messages_code not_admin = refl
error_messages_code invalid_new_admin = refl
error_messages_code quorum_update_not_allowed = refl
error_messages_code no_pending_admin = refl
error_messages_code not_pending_admin = refl
error_messages_code not_proposer = refl
error_messages_code votes_already_cast = refl
error_messages_code invalid_link = refl
error_messages_code contract_paused = refl
error_messages_code not_paused = refl
error_messages_code arithmetic_overflow = refl
error_messages_code execution_failed = refl
