-- ===== src/Frontend/Errors.antt =====
-- The error messages of frontend/src/errors.ts, and the error codes of the governance contract,
-- contracts/governance/src/types.rs.
pub mod Codes
mod Examples
use cosmosvote.Prelude.{ℕ, List, [], ◌∷◌, ◌++◌, JsString, js}

pub record ErrorMessage : Type 0 where
  pub code : ℕ
  pub name : JsString
  pub description : JsString
  pub common_cause : JsString
  pub resolution : JsString

pub message : ℕ → JsString → JsString → JsString → JsString → JsString × ErrorMessage
message code name description cause resolution = (
  name,
  record {
    code = code;
    name = name;
    description = description;
    common_cause = cause;
    resolution = resolution;
  },
)

-- The first and the second part of `ERROR_MESSAGES`.
pub early_messages : List (JsString × ErrorMessage)
unfolding message
early_messages =
    message 1 (js "AlreadyInitialized")
      (js "The contract has already been initialized and cannot be initialized again.")
      (js
        "The frontend attempted to initialize a contract that is already deployed and configured.")
      (js "Skip contract initialization or use the existing deployed contract address.")
    ∷ message 2 (js "NotInitialized")
        (js "The contract has not been initialized yet and is not ready for use.")
        (js "A contract action was called before the initial setup step completed.")
        (js "Ensure the contract has been initialized before invoking other methods.")
    ∷ message 10 (js "ProposalNotFound") (js "The requested proposal could not be found on-chain.")
        (js "The proposal ID is invalid or the proposal does not exist.")
        (js "Refresh proposal data and verify the proposal ID.")
    ∷ message 11 (js "ProposalNotActive")
        (js "The proposal is not currently in an active voting state.")
        (js
          "The user attempted to vote on a proposal that is pending, passed, rejected, or cancelled.")
        (js "Only vote on active proposals and refresh proposal state.")
    ∷ message 12 (js "ProposalNotPassed") (js "The proposal did not pass and cannot be executed.")
        (js "The proposal failed quorum or majority requirements.")
        (js "Check proposal results and review voting thresholds before execution.")
    ∷ message 13 (js "InvalidTitle")
        (js "The proposal title is missing or exceeds the supported length.")
        (js "User entered an empty title or a title longer than 128 characters.")
        (js "Use a non-empty title with 128 characters or fewer.")
    ∷ message 14 (js "InvalidDescription")
        (js "The proposal description is missing or exceeds the supported length.")
        (js "User entered an empty description or a description longer than 1024 characters.")
        (js "Use a non-empty description with 1024 characters or fewer.")
    ∷ message 15 (js "InvalidQuorum") (js "The specified quorum is invalid for this proposal.")
        (js "Quorum is zero, negative, or otherwise unsupported.")
        (js "Choose a quorum greater than zero and within the allowed range.")
    ∷ message 16 (js "QuorumExceedsSupply")
        (js "The quorum requirement is higher than the total token supply.")
        (js "Quorum was set too high compared to available voting supply.")
        (js "Set a quorum value that is no larger than the total token supply.")
    ∷ message 17 (js "InvalidDurationRange")
        (js "The voting duration is outside the allowed contract limits.")
        (js "The selected duration is shorter than 60 seconds or longer than the maximum allowed.")
        (js "Choose a valid voting duration within the allowed interval.")
    ∷ message 18 (js "InsufficientBalance")
        (js "The account balance is too low to create a proposal or perform a token action.")
        (js "User has insufficient tokens for proposal creation, transfer, or voting operations.")
        (js "Hold enough tokens in the account or use a different account with sufficient balance.")
    ∷ message 19 (js "ProposalCooldown")
        (js "The proposer is still in a cooldown period and cannot submit another proposal yet.")
        (js "A proposal was created too recently and the cooldown timer has not expired.")
        (js "Wait until the proposer cooldown period ends before submitting another proposal.")
    ∷ message 20 (js "VotingNotStarted") (js "Voting has not started for this proposal yet.")
        (js "The proposal voting window is not open yet.")
        (js "Wait until voting begins before casting a vote.")
    ∷ []

pub late_messages : List (JsString × ErrorMessage)
unfolding message
late_messages =
    message 21 (js "VotingPeriodEnded")
      (js "The voting period has already ended for this proposal.")
      (js "The proposal voting window is closed.")
      (js "Review proposal results instead of attempting to vote.")
    ∷ message 22 (js "VotingStillOpen")
        (js "The proposal voting period is still open and cannot be finalized yet.")
        (js "A finalization or execution action was attempted before voting ended.")
        (js "Wait for the voting period to finish before finalizing or executing.")
    ∷ message 23 (js "AlreadyVoted") (js "The voter has already voted on this proposal.")
        (js "The same account attempted to vote more than once on the same proposal.")
        (js "Use a different account or view the existing vote status.")
    ∷ message 24 (js "NoVotingPower") (js "The account has no voting power for this proposal.")
        (js "The voter holds zero governance tokens or voting power is not available.")
        (js "Acquire governance tokens before attempting to vote.")
    ∷ message 25 (js "AdminVoteRestricted")
        (js "The admin is not allowed to vote on their own proposals.")
        (js "An admin account tried to vote on a proposal it created or controls.")
        (js "Use a non-admin account to vote on the proposal.")
    ∷ message 26 (js "VoteNotFound")
        (js "No vote record was found for the given voter and proposal.")
        (js "The user has not voted yet or the wrong proposal ID was queried.")
        (js "Confirm the proposal ID and vote status, then vote if needed.")
    ∷ message 30 (js "NotAdmin")
        (js "The caller is not authorized as the admin for the contract action.")
        (js "A restricted admin-only operation was attempted from a non-admin account.")
        (js "Use the admin account or remove the admin-only restriction.")
    ∷ message 31 (js "InvalidNewAdmin") (js "The new admin address provided is invalid.")
        (js "An incorrect or malformed address was supplied when changing admin.")
        (js "Verify and provide a valid Stellar address for the new admin.")
    ∷ message 40 (js "ContractPaused")
        (js "The contract is currently paused and cannot perform this action.")
        (js "The admin paused the contract for maintenance or security reasons.")
        (js "Wait until the contract is unpaused or contact the administrator.")
    ∷ message 41 (js "NotPaused") (js "The contract is not paused and cannot be unpaused.")
        (js "An unpause action was attempted when the contract is already active.")
        (js "Verify contract state before calling unpause.")
    ∷ message 50 (js "ArithmeticOverflow")
        (js "An arithmetic operation exceeded the contract’s safe numeric range.")
        (js "A numeric computation overflowed during vote or balance calculations.")
        (js "Retry with valid values and check the contract configuration.")
    ∷ message 20 (js "InvalidAmount") (js "The token transfer amount is invalid or non-positive.")
        (js "The user attempted to send zero or negative tokens.")
        (js "Send a positive amount greater than zero.")
    ∷ message 22 (js "AllowanceExceeded")
        (js "The spender’s allowance is insufficient for the requested transfer.")
        (js "A transfer-with-allowance was attempted without enough approved funds.")
        (js "Increase the allowance or use a smaller transfer amount.")
    ∷ []

pub error_messages : List (JsString × ErrorMessage)
unfolding early_messages late_messages
error_messages = early_messages ++ late_messages

-- `ContractError` of the governance contract.
pub data ContractError : Type 0 where
  already_initialized not_initialized proposal_not_found proposal_not_active proposal_not_passed
        invalid_title invalid_description invalid_quorum quorum_exceeds_supply
        invalid_duration_range insufficient_balance proposal_cooldown quorum_below_floor
        proposals_still_active voting_not_started voting_period_ended voting_still_open
        already_voted no_voting_power admin_vote_restricted vote_not_found vote_already_same
        not_admin invalid_new_admin quorum_update_not_allowed no_pending_admin not_pending_admin
        not_proposer votes_already_cast invalid_link contract_paused not_paused arithmetic_overflow
        execution_failed :
      ContractError

pub error_code : ContractError → ℕ
error_code already_initialized = 1
error_code not_initialized = 2
error_code proposal_not_found = 10
error_code proposal_not_active = 11
error_code proposal_not_passed = 12
error_code invalid_title = 13
error_code invalid_description = 14
error_code invalid_quorum = 15
error_code quorum_exceeds_supply = 16
error_code invalid_duration_range = 17
error_code insufficient_balance = 18
error_code proposal_cooldown = 19
error_code quorum_below_floor = 20
error_code proposals_still_active = 21
error_code voting_not_started = 22
error_code voting_period_ended = 23
error_code voting_still_open = 24
error_code already_voted = 25
error_code no_voting_power = 26
error_code admin_vote_restricted = 27
error_code vote_not_found = 28
error_code vote_already_same = 29
error_code not_admin = 30
error_code invalid_new_admin = 31
error_code quorum_update_not_allowed = 32
error_code no_pending_admin = 33
error_code not_pending_admin = 34
error_code not_proposer = 35
error_code votes_already_cast = 36
error_code invalid_link = 37
error_code contract_paused = 40
error_code not_paused = 41
error_code arithmetic_overflow = 50
error_code execution_failed = 60

pub error_name : ContractError → JsString
error_name already_initialized = js "AlreadyInitialized"
error_name not_initialized = js "NotInitialized"
error_name proposal_not_found = js "ProposalNotFound"
error_name proposal_not_active = js "ProposalNotActive"
error_name proposal_not_passed = js "ProposalNotPassed"
error_name invalid_title = js "InvalidTitle"
error_name invalid_description = js "InvalidDescription"
error_name invalid_quorum = js "InvalidQuorum"
error_name quorum_exceeds_supply = js "QuorumExceedsSupply"
error_name invalid_duration_range = js "InvalidDurationRange"
error_name insufficient_balance = js "InsufficientBalance"
error_name proposal_cooldown = js "ProposalCooldown"
error_name quorum_below_floor = js "QuorumBelowFloor"
error_name proposals_still_active = js "ProposalsStillActive"
error_name voting_not_started = js "VotingNotStarted"
error_name voting_period_ended = js "VotingPeriodEnded"
error_name voting_still_open = js "VotingStillOpen"
error_name already_voted = js "AlreadyVoted"
error_name no_voting_power = js "NoVotingPower"
error_name admin_vote_restricted = js "AdminVoteRestricted"
error_name vote_not_found = js "VoteNotFound"
error_name vote_already_same = js "VoteAlreadySame"
error_name not_admin = js "NotAdmin"
error_name invalid_new_admin = js "InvalidNewAdmin"
error_name quorum_update_not_allowed = js "QuorumUpdateNotAllowed"
error_name no_pending_admin = js "NoPendingAdmin"
error_name not_pending_admin = js "NotPendingAdmin"
error_name not_proposer = js "NotProposer"
error_name votes_already_cast = js "VotesAlreadyCast"
error_name invalid_link = js "InvalidLink"
error_name contract_paused = js "ContractPaused"
error_name not_paused = js "NotPaused"
error_name arithmetic_overflow = js "ArithmeticOverflow"
error_name execution_failed = js "ExecutionFailed"
