-- ===== src/Frontend/Events.antt =====
-- The events of the contracts, by frontend/src/events.ts: their data and their topics. Numbers and
-- amounts, which the contracts keep from being negative, are natural numbers here.
pub mod Topics
mod Examples
use cosmosvote.Prelude.{ℕ, List, [], ◌∷◌, JsString, js}
use cosmosvote.Frontend.Proposals.{ProposalState, VoteType}

pub data GovernanceEvent : Type 0 where
  gov_initialized : (admin token : JsString) → GovernanceEvent
  gov_proposal_created :
      (id : ℕ) (proposer title : JsString) (quorum end_time : ℕ) → GovernanceEvent
  gov_vote_cast :
      (proposal_id : ℕ) (voter : JsString) (vote : VoteType) (weight : ℕ) → GovernanceEvent
  gov_proposal_finalized : (proposal_id : ℕ) (state : ProposalState) → GovernanceEvent
  gov_proposal_executed : (proposal_id : ℕ) (admin : JsString) → GovernanceEvent
  gov_proposal_cancelled : (proposal_id : ℕ) (admin : JsString) → GovernanceEvent
  gov_quorum_updated : (proposal_id old_quorum new_quorum : ℕ) → GovernanceEvent
  gov_admin_transfer_initiated : (current_admin pending_admin : JsString) → GovernanceEvent
  gov_admin_transfer_completed : (previous_admin new_admin : JsString) → GovernanceEvent
  gov_admin_transferred : (old_admin new_admin : JsString) → GovernanceEvent
  gov_paused : (admin : JsString) → GovernanceEvent
  gov_unpaused : (admin : JsString) → GovernanceEvent

pub data TokenEvent : Type 0 where
  token_initialized : (admin : JsString) (supply : ℕ) → TokenEvent
  token_transfer : (from_ to_ : JsString) (amount : ℕ) → TokenEvent
  token_approval : (owner spender : JsString) (amount : ℕ) → TokenEvent
  token_minted : (admin to_ : JsString) (amount : ℕ) → TokenEvent
  token_burned : (admin from_ : JsString) (amount : ℕ) → TokenEvent
  token_admin_transferred : (old_admin new_admin : JsString) → TokenEvent

pub data CosmosVoteEvent : Type 0 where
  governance : GovernanceEvent → CosmosVoteEvent
  token : TokenEvent → CosmosVoteEvent

-- `GOV_TAGS`
pub gov_tags : List (JsString × JsString)
gov_tags =
    (js "INITIALIZED", js "init")
    ∷ (js "PROPOSAL_CREATED", js "created")
    ∷ (js "VOTE_CAST", js "voted")
    ∷ (js "PROPOSAL_FINALIZED", js "final")
    ∷ (js "PROPOSAL_EXECUTED", js "exec")
    ∷ (js "PROPOSAL_CANCELLED", js "cancel")
    ∷ (js "QUORUM_UPDATED", js "quorum")
    ∷ (js "ADMIN_TRANSFER_INITIATED", js "admint")
    ∷ (js "ADMIN_TRANSFER_COMPLETED", js "admina")
    ∷ (js "ADMIN_TRANSFERRED", js "admin")
    ∷ (js "PAUSED", js "paused")
    ∷ (js "UNPAUSED", js "unpause")
    ∷ []

-- `TOKEN_TAGS`
pub token_tags : List (JsString × JsString)
token_tags =
    (js "INITIALIZED", js "init")
    ∷ (js "TRANSFER", js "xfer")
    ∷ (js "APPROVAL", js "approve")
    ∷ (js "MINTED", js "mint")
    ∷ (js "BURNED", js "burn")
    ∷ (js "ADMIN_TRANSFERRED", js "admin")
    ∷ []

-- The second topic.
unfoldable pub governance_topic : GovernanceEvent → JsString
governance_topic (gov_initialized _ _) = js "init"
governance_topic (gov_proposal_created _ _ _ _ _) = js "created"
governance_topic (gov_vote_cast _ _ _ _) = js "voted"
governance_topic (gov_proposal_finalized _ _) = js "final"
governance_topic (gov_proposal_executed _ _) = js "exec"
governance_topic (gov_proposal_cancelled _ _) = js "cancel"
governance_topic (gov_quorum_updated _ _ _) = js "quorum"
governance_topic (gov_admin_transfer_initiated _ _) = js "admint"
governance_topic (gov_admin_transfer_completed _ _) = js "admina"
governance_topic (gov_admin_transferred _ _) = js "admin"
governance_topic (gov_paused _) = js "paused"
governance_topic (gov_unpaused _) = js "unpause"

-- The second topic.
unfoldable pub token_topic : TokenEvent → JsString
token_topic (token_initialized _ _) = js "init"
token_topic (token_transfer _ _ _) = js "xfer"
token_topic (token_approval _ _ _) = js "approve"
token_topic (token_minted _ _ _) = js "mint"
token_topic (token_burned _ _ _) = js "burn"
token_topic (token_admin_transferred _ _) = js "admin"

unfoldable pub topics : CosmosVoteEvent → JsString × JsString
unfolding governance_topic token_topic
topics (governance e) = (js "gov", governance_topic e)
topics (token e) = (js "token", token_topic e)
