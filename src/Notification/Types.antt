-- ===== src/Notification/Types.antt =====
-- notification-service/src/types.ts, and the Horizon event record that `raw` carries.
use cosmosvote.Prelude.{ℕ, Bool, List, Option, JsString}

-- `Number(…)` of a text of digits, or NaN. Other texts that are numbers, such as 0x10 and 1e3, do not begin the
-- identifiers of Horizon and are left out.
pub data JsNumber : Type 0 where
  num : ℕ → JsNumber
  nan : JsNumber

-- A decoded topic: `{ type, value }`.
pub record Topic : Type 0 where
  pub type : JsString
  pub value : Option JsString

-- A contract event record as the watcher reads it. `value` is the decoded value's list of
-- elements, each by its `toString()`, or none where it is null or undefined.
pub record EventRecord : Type 0 where
  pub id : JsString
  pub topic : Option (List Topic)
  pub value : Option (Option (List (Option JsString)))
  pub ledger_closed_at : Option JsString

-- A TypeScript union of literals is a string at run time, and the command line stores what it is
-- given, so event types are strings.
abbrev pub GovernanceEventType : Type 0
GovernanceEventType = JsString

pub record GovernanceEvent : Type 0 where
  pub type : GovernanceEventType
  pub proposal_id : Option JsString
  pub ledger : JsNumber
  pub raw : EventRecord

pub record Subscriber : Type 0 where
  pub id : JsString
  pub proposal_id : Option JsString
  pub events : List GovernanceEventType
  pub email : Option JsString
  pub webhook_url : Option JsString
  pub slack_webhook_url : Option JsString
  pub discord_webhook_url : Option JsString

pub record SubscriptionStore : Type 0 where
  pub subscribers : List Subscriber
  pub cursor : JsString

-- `success` with the error message where it is false.
pub record ChannelResult : Type 0 where
  pub channel : JsString
  pub success : Bool
  pub error : Option JsString
