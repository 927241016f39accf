-- ===== src/Notification/Notifier.antt =====
-- notification-service/src/notifier.ts: one event to one subscriber, over all its channels.
mod Examples
pub mod Isolation
use cosmosvote.Prelude.{
  Option, none, some, true, false, List, [], ◌∷◌, ◌++◌, map, JsString, select, Result, ok, throws,
}
use cosmosvote.Notification.Types.{GovernanceEvent, Subscriber, ChannelResult}
use cosmosvote.Notification.Channels.{Env, Channel, Delivery, channels}

-- What may be thrown: an `Error`, or another value with its `String(…)`.
pub data Thrown : Type 0 where
  error_object other_value : JsString → Thrown

pub message_of : Thrown → JsString
message_of (error_object message) = message
message_of (other_value text) = text

-- The mail and HTTP libraries: whether a call is answered, or what it throws.
abbrev pub Transport : Type 0
Transport = Delivery → Result Thrown (Unit {0})

pub sent : Transport → Option Delivery → Result Thrown (Unit {0})
sent transport none = ok tt
sent transport (some delivery) = transport delivery

pub result_of : JsString → Result Thrown (Unit {0}) → ChannelResult
result_of name (ok _) = record { channel = name; success = true; error = none }
result_of name (throws err) = record {
  channel = name;
  success = false;
  error = some (message_of err);
}

-- The body of one task: its `try` and its `catch`.
pub attempt : Transport → Subscriber → GovernanceEvent → Channel → ChannelResult
attempt transport s event ch = result_of ch.name (sent transport (ch.send s event))

pub configured : Env → Subscriber → List Channel
configured env s = select (λ ch. ch.is_configured s) (channels env)

pub some_of {ℓ} : {A : Type ℓ} → Option A → List A
some_of none = []
some_of (some a) = a ∷ []

pub deliveries_of : Subscriber → GovernanceEvent → List Channel → List Delivery
unfolding some_of
deliveries_of s event [] = []
deliveries_of s event (ch ∷ chs) = some_of (ch.send s event) ++ deliveries_of s event chs

-- The calls that are made, in the order in which they are started, and the results.
pub notify : Transport → Env → Subscriber → GovernanceEvent → List Delivery × List ChannelResult
unfolding deliveries_of
notify transport env s event =
    let chs = configured env s in (deliveries_of s event chs, map (attempt transport s event) chs)
