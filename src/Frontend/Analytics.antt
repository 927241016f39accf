-- ===== src/Frontend/Analytics.antt =====
-- frontend/src/analytics.ts, as steps: a flush takes the queue as a batch and waits for the request; in
-- the meantime events are tracked and further flushes start. The session, the clock and the network
-- are outside.
pub mod Conservation
mod Examples
use cosmosvote.Prelude.{
  ℕ, ◌≡◌, Option, Bool, true, false, not, List, [], ◌∷◌, ◌++◌, JsString, is_set, leb, if◌then◌else◌,
  length,
}

pub record AnalyticsEvent : Type 0 where
  pub name : JsString
  pub props : List (JsString × JsString)
  pub session_id : JsString
  pub ts : ℕ

-- The environment's constants.
pub record Settings : Type 0 where
  pub enabled : Bool
  pub endpoint : Option JsString

abbrev pub batch_size : ℕ
batch_size = 10

-- The queue, its copy in the local storage, which may be unavailable, the batches that are on their
-- way, and what was taken off the queue for good.
pub record State : Type 0 where
  pub queue : List AnalyticsEvent
  pub storage_works : Bool
  pub stored : List AnalyticsEvent
  pub on_the_way : List (List AnalyticsEvent)
  pub done : List AnalyticsEvent

-- The page is loaded: the queue is what the storage holds.
pub load : Bool → List AnalyticsEvent → State
load works stored = record {
  queue = if works then stored else [];
  storage_works = works;
  stored = stored;
  on_the_way = [];
  done = [];
}

pub persist : State → State
persist s = if s.storage_works then record s { stored = s.queue } else s

-- `flush` up to its request. Without an endpoint the batch is logged or dropped.
pub flush : Settings → State → State
unfolding persist
flush settings s =
    if leb (length s.queue) 0
    then s
    else let batch = s.queue in
      let saved = persist (record s { queue = [] }) in
      if is_set settings.endpoint
      then record saved { on_the_way = batch ∷ saved.on_the_way }
      else record saved { done = saved.done ++ batch }

-- The request of the batch at a place ends, well or not. A failure puts the batch in front.
pub request_ends :
    Bool
    → (front : List (List AnalyticsEvent)) → List AnalyticsEvent
    → List (List AnalyticsEvent)
    → State
    → State
unfolding persist
request_ends true front batch back s = record s {
  on_the_way = front ++ back;
  done = s.done ++ batch;
}
request_ends false front batch back s =
    persist (record s { on_the_way = front ++ back; queue = batch ++ s.queue })

pub track_event : Settings → AnalyticsEvent → State → State
unfolding persist flush
track_event settings event s =
    if not settings.enabled
    then s
    else let saved = persist (record s { queue = s.queue ++ event ∷ [] }) in
      if leb batch_size (length saved.queue) then flush settings saved else saved

-- What is reached from a page load, with the events that were tracked and accepted, the newest first.
pub data Reach (settings : Settings) (works : Bool) (stored : List AnalyticsEvent)
    : List AnalyticsEvent → State → Type 0 where
  loaded : {s : State} → s ≡ load works stored → Reach settings works stored [] s
  tracked :
      {events : List AnalyticsEvent} {s t : State} (event : AnalyticsEvent)
      → Reach settings works stored events s
      → t ≡ track_event settings event s
      → Reach settings works stored (if settings.enabled then event ∷ events else events) t
  flushed :
      {events : List AnalyticsEvent} {s t : State}
      → Reach settings works stored events s
      → t ≡ flush settings s
      → Reach settings works stored events t
  ended :
      {events : List AnalyticsEvent} {s t : State} (answered : Bool)
      (front : List (List AnalyticsEvent)) (batch : List AnalyticsEvent)
      (back : List (List AnalyticsEvent))
      → Reach settings works stored events s
      → s.on_the_way ≡ front ++ batch ∷ back
      → t ≡ request_ends answered front batch back s
      → Reach settings works stored events t
