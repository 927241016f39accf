-- ===== src/Notification/Subscriptions.antt =====
-- notification-service/src/subscriptions.ts: the subscription file and its operations. The file is
-- the value that it parses to; a read or a write that fails, and a text that is no JSON, are
-- states of the disk. A write that fails leaves the file as it was.
mod Examples
pub mod Filter
pub mod Edits
pub mod Cursor
pub mod History
use cosmosvote.Prelude.{
  ◌>>=◌, Option, Bool, true, false, not, ◌&&◌, ◌||◌, JsString, js, ◌===◌, is_set, List, [], ◌∷◌,
  ◌++◌, if◌then◌else◌, Result, ok, throws, length, ◌==◌, any, select, same_option,
}
use cosmosvote.Notification.Types.{SubscriptionStore, Subscriber, GovernanceEventType}

pub data FileContent : Type 0 where
  absent garbled : FileContent
  holds : SubscriptionStore → FileContent

pub record Disk : Type 0 where
  pub content : FileContent
  pub writable : Bool

pub data StoreError : Type 0 where
  no_channel write_failed : StoreError

pub empty_store : SubscriptionStore
empty_store = record { subscribers = []; cursor = js "now" }

pub parsed : FileContent → SubscriptionStore
parsed absent = empty_store
parsed garbled = empty_store
parsed (holds store) = store

pub load : Disk → SubscriptionStore
unfolding parsed
load d = parsed d.content

pub save : SubscriptionStore → Disk → Result StoreError Disk
save store d = if d.writable then ok (record d { content = holds store }) else throws write_failed

pub get_store : Disk → SubscriptionStore
unfolding load
get_store d = load d

pub save_cursor : JsString → Disk → Result StoreError Disk
save_cursor cursor d = save (record (load d) { cursor = cursor }) d

-- The argument of `addSubscriber`.
pub record Options : Type 0 where
  pub proposal_id : Option JsString
  pub events : List GovernanceEventType
  pub email : Option JsString
  pub webhook_url : Option JsString
  pub slack_webhook_url : Option JsString
  pub discord_webhook_url : Option JsString

pub has_channel : Options → Bool
has_channel opts =
    is_set opts.email
    || is_set opts.webhook_url
    || is_set opts.slack_webhook_url
    || is_set opts.discord_webhook_url

-- `{ id: crypto.randomUUID(), ...opts }`, with the identifier as an argument.
pub subscriber_of : JsString → Options → Subscriber
subscriber_of id opts = record {
  id = id;
  proposal_id = opts.proposal_id;
  events = opts.events;
  email = opts.email;
  webhook_url = opts.webhook_url;
  slack_webhook_url = opts.slack_webhook_url;
  discord_webhook_url = opts.discord_webhook_url;
}

pub push_subscriber : Subscriber → SubscriptionStore → SubscriptionStore
push_subscriber s store = record store { subscribers = store.subscribers ++ s ∷ [] }

pub add_subscriber : Options → JsString → Disk → Result StoreError (Subscriber × Disk)
add_subscriber opts uuid d = if not (has_channel opts) then throws no_channel else do
  d' ← save (push_subscriber (subscriber_of uuid opts) (load d)) d
  ok (subscriber_of uuid opts, d')

pub without : JsString → List Subscriber → List Subscriber
without id = select (λ s. not (s.id === id))

pub remove_subscriber : JsString → Disk → Result StoreError (Bool × Disk)
remove_subscriber id d =
    let store = load d in
    let rest = without id store.subscribers in
    if length rest == length store.subscribers
    then ok (false, d)
    else do d' ← save (record store { subscribers = rest }) d; ok (true, d')

pub list_subscribers : Disk → List Subscriber
list_subscribers d = (load d).subscribers

-- The test of `matchingSubscribers`.
pub wants : GovernanceEventType → Option JsString → Subscriber → Bool
wants event_type proposal_id s =
    if not (any (λ e. e === event_type) s.events)
    then false
    else if is_set s.proposal_id && not (same_option s.proposal_id proposal_id)
    then false
    else true

pub matching_subscribers : GovernanceEventType → Option JsString → Disk → List Subscriber
matching_subscribers event_type proposal_id d =
    select (wants event_type proposal_id) (load d).subscribers
