-- ===== src/Notification/Watcher.antt =====
-- notification-service/src/watcher.ts: from contract events to notifications. Horizon is a parameter,
-- and so is what carries the messages.
mod Examples
pub mod Fields
pub mod Events
pub mod Dispatch
pub mod Polls
pub mod Catchup
use cosmosvote.Prelude.{
  ◌>>=◌, ℕ, Option, none, some, not, List, [], ◌∷◌, ◌++◌, map, JsString, js, ◌===◌, truthy, is_set,
  of_decimal, or_else, split, ltb, if◌then◌else◌, length, cons_some, get_elem?, any, Result, ok,
  throws,
}
use cosmosvote.Notification.Types.{
  JsNumber, num, nan, Topic, EventRecord, GovernanceEventType, GovernanceEvent, Subscriber,
  ChannelResult,
}
use cosmosvote.Notification.Subscriptions.{
  Disk, StoreError, get_store, save_cursor, matching_subscribers,
}
use cosmosvote.Notification.Channels.{Env, Delivery}
use cosmosvote.Notification.Notifier.{Thrown, Transport, notify}

pub tracked_topics : List GovernanceEventType
tracked_topics = js "created" ∷ js "voted" ∷ js "final" ∷ js "exec" ∷ js "cancel" ∷ []

-- `rawTopics?.[i]?.value ?? ''`
pub topic_value : List Topic → ℕ → JsString
topic_value topics i = elim (get_elem? topics i) [ none ↦ [] | some t ↦ or_else t.value [] ]

-- `rawValue?.value?.[0]?.toString()`
pub first_value : Option (Option (List (Option JsString))) → Option JsString
first_value none = none
first_value (some none) = none
first_value (some (some [])) = none
first_value (some (some (v ∷ vs))) = v

pub first_part : JsString → JsString
first_part id = or_else (get_elem? (split b'-' id) 0) []

pub ledger_of : EventRecord → JsNumber
ledger_of r =
    if is_set r.ledger_closed_at
    then (if truthy (first_part r.id)
        then elim (of_decimal (first_part r.id)) [ none ↦ nan | some n ↦ num n ]
        else num 0)
    else num 0

-- The object that `parseEvent` returns.
pub event_of : EventRecord → List Topic → GovernanceEvent
event_of r topics = record {
  type = topic_value topics 1;
  proposal_id = first_value r.value;
  ledger = ledger_of r;
  raw = r;
}

-- The rest of `parseEvent`, behind its test for two topics.
pub relevant_event : EventRecord → List Topic → Option GovernanceEvent
relevant_event r topics =
    if not (topic_value topics 0 === js "gov")
    then none
    else if not (any (λ t. t === topic_value topics 1) tracked_topics)
    then none
    else some (event_of r topics)

pub parse_topics : EventRecord → Option (List Topic) → Option GovernanceEvent
parse_topics r none = none
parse_topics r (some topics) = if ltb (length topics) 2 then none else relevant_event r topics

pub parse_event : EventRecord → Option GovernanceEvent
parse_event r = parse_topics r r.topic

-- The Horizon server: the records that follow a paging token, at most 50 of them, or an error.
abbrev pub Horizon : Type 0
Horizon = Option JsString → Result Thrown (List EventRecord)

-- The loop of `fetchNewEvents`.
pub collect : List EventRecord → List GovernanceEvent → JsString → List GovernanceEvent × JsString
collect [] events next_cursor = (events, next_cursor)
collect (r ∷ rs) events next_cursor = collect rs (events ++ cons_some (parse_event r) []) r.id

pub fetch_new_events : Horizon → JsString → Result Thrown (List GovernanceEvent × JsString)
fetch_new_events horizon cursor = do
  records ← horizon (if not (cursor === js "now") then some cursor else none)
  ok (collect records [] cursor)

-- One call of `notify`: whom it is for, what is sent, and the results.
pub record Notified : Type 0 where
  pub event : GovernanceEvent
  pub subscriber : Subscriber
  pub outcome : List Delivery × List ChannelResult

pub data PollError : Type 0 where
  fetch_failed : Thrown → PollError
  store_failed : StoreError → PollError

-- The disk after a poll, its notifications, and the error that it caught.
pub record Polled : Type 0 where
  pub disk : Disk
  pub notified : List Notified
  pub error : Option PollError

module _ (transport : Transport) (env : Env) where
  pub notify_one : GovernanceEvent → Subscriber → Notified
  notify_one event sub = record {
    event = event;
    subscriber = sub;
    outcome = notify transport env sub event;
  }

  pub process_events : List GovernanceEvent → Disk → List Notified
  process_events [] d = []
  process_events (event ∷ events) d =
      map (notify_one event) (matching_subscribers event.type event.proposal_id d)
      ++ process_events events d

  pub deliver : List GovernanceEvent → JsString → Disk → Polled
  deliver [] next_cursor d = record { disk = d; notified = []; error = none }
  deliver (event ∷ events) next_cursor d = elim (save_cursor next_cursor d) [
    | ok d' ↦ record { disk = d'; notified = process_events (event ∷ events) d; error = none }
    | throws e ↦ record {
      disk = d;
      notified = process_events (event ∷ events) d;
      error = some (store_failed e);
    }
  ]

  -- What `poll` does with the answer, its `catch` included.
  pub poll_found : Disk → Result Thrown (List GovernanceEvent × JsString) → Polled
  poll_found d (throws e) = record { disk = d; notified = []; error = some (fetch_failed e) }
  poll_found d (ok (events, next_cursor)) = deliver events next_cursor d

  pub poll : Horizon → Disk → Polled
  poll horizon d = poll_found d (fetch_new_events horizon (get_store d).cursor)

  -- Polls in a row, each with the server as it answers at that time.
  pub polls : List Horizon → Disk → Disk × List Notified
  polls [] d = (d, [])
  polls (horizon ∷ rest) d =
      let later = polls rest (poll horizon d).disk in
      (later.0, (poll horizon d).notified ++ later.1)

  -- `startWatcher`, up to the end of the polls that are listed.
  pub start_watcher : JsString → List Horizon → Disk → Result JsString (Disk × List Notified)
  start_watcher contract_id servers d =
      if not (truthy contract_id)
      then throws (js "GOVERNANCE_CONTRACT_ID is not set.")
      else ok (polls servers d)
