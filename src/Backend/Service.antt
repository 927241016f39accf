-- ===== src/Backend/Service.antt =====
-- backend/src/notificationService.ts: one poll, its deliveries and the errors that they report, and the
-- report of backend/src/errorTracking.ts. The HTTP library is a parameter; so is the Sentry client,
-- whose calls are the reports.
mod Examples
pub mod Failures
pub mod Deliveries
use cosmosvote.Prelude.{
  ℕ, ◌+◌, Option, Bool, false, List, [], ◌∷◌, ◌++◌, JsString, js, or_else, leb, Result, ok, throws,
}

pub data Thrown : Type 0 where
  error_object other_value : JsString → Thrown

pub record WebhookPayload : Type 0 where
  pub contract_id : JsString
  pub event : JsString
  pub ledger : ℕ
  pub payload : JsString

pub record Config : Type 0 where
  pub rpc_url : JsString
  pub contract_id : JsString
  pub webhook_url : JsString
  pub poll_interval_ms : Option ℕ

abbrev pub max_poll_failures : ℕ
max_poll_failures = 3

-- `captureError`: the exception's message, and the context that goes with it.
pub data Context : Type 0 where
  event_polling :
      (contract_id : JsString) (consecutive_failures : ℕ) (alert_threshold_reached : Bool) → Context
  webhook_delivery : (webhook_url event : JsString) → Context

pub record Report : Type 0 where
  pub message : JsString
  pub context : Context

-- `error instanceof Error ? error : new Error(String(error))`
pub message_of : Thrown → JsString
message_of (error_object message) = message
message_of (other_value text) = text

pub capture_error : Thrown → Context → Report
unfolding message_of
capture_error err context = record { message = message_of err; context = context }

-- The answer to `getEvents`: its `data.events`, which may be undefined, or no `data` at all, so that
-- reading `events` from it throws.
pub data Answer : Type 0 where
  answered : Option (List WebhookPayload) → Answer
  without_data : Answer

pub no_data_error : Thrown
no_data_error = error_object (js "Cannot read properties of null (reading 'events')")

-- What a poll leaves: the events, the failure counter, the reports, and whether the alert is logged.
pub record Polled : Type 0 where
  pub events : List WebhookPayload
  pub consecutive_failures : ℕ
  pub reports : List Report
  pub alert_logged : Bool

-- The `catch` of `pollEvents`, at the counter as the `try` left it.
pub poll_failed : Config → ℕ → Thrown → Polled
unfolding capture_error
poll_failed config failures err =
    let now = failures + 1 in
    record {
      events = [];
      consecutive_failures = now;
      reports =
          capture_error err (event_polling config.contract_id now (leb max_poll_failures now)) ∷ [];
      alert_logged = leb max_poll_failures now;
    }

-- `pollEvents`. The counter is reset as soon as the request is answered.
pub poll_events : Config → ℕ → Result Thrown Answer → Polled
poll_events config failures (ok (answered events)) = record {
  events = or_else events [];
  consecutive_failures = 0;
  reports = [];
  alert_logged = false;
}
poll_events config failures (ok without_data) = poll_failed config 0 no_data_error
poll_events config failures (throws err) = poll_failed config failures err

-- The HTTP library, for the webhook.
abbrev pub Transport : Type 0
Transport = WebhookPayload → Result Thrown (Unit {0})

pub delivery_report : Config → WebhookPayload → Result Thrown (Unit {0}) → List Report
unfolding capture_error
delivery_report config payload (ok _) = []
delivery_report config payload (throws err) =
    capture_error err (webhook_delivery config.webhook_url payload.event) ∷ []

-- `deliverWebhook`: the payload is posted, and a failure is reported and swallowed.
pub deliver_webhook : Config → Transport → WebhookPayload → List WebhookPayload × List Report
deliver_webhook config transport payload =
    (payload ∷ [], delivery_report config payload (transport payload))

-- The loop of `runOnce`: what is posted, and the reports.
pub deliver_all : Config → Transport → List WebhookPayload → List WebhookPayload × List Report
unfolding deliver_webhook
deliver_all config transport [] = ([], [])
deliver_all config transport (event ∷ events) =
    let (posts, reports) = deliver_webhook config transport event in
    let later = deliver_all config transport events in (posts ++ later.0, reports ++ later.1)

pub record RanOnce : Type 0 where
  pub polled : Polled
  pub posts : List WebhookPayload
  pub reports : List Report

pub run_once : Config → Transport → ℕ → Result Thrown Answer → RanOnce
run_once config transport failures answer =
    let polled = poll_events config failures answer in
    let sent = deliver_all config transport polled.events in
    record { polled = polled; posts = sent.0; reports = polled.reports ++ sent.1 }

-- Polls in a row, from a counter: the counter after them, and what each left.
pub poll_all : Config → ℕ → List (Result Thrown Answer) → ℕ × List Polled
poll_all config failures [] = (failures, [])
poll_all config failures (answer ∷ answers) =
    let polled = poll_events config failures answer in
    let later = poll_all config polled.consecutive_failures answers in (later.0, polled ∷ later.1)
