-- ===== src/Backend/Service/Deliveries.antt =====
-- The deliveries of backend/src/notificationService.ts.
use cosmosvote.Prelude.{
  map, ok, throws, JsString, ℕ, ◌≡◌, refl, ap, List, [], ◌∷◌, ◌++◌, concat_map, Result,
}
use cosmosvote.Backend.Service.{
  Thrown, error_object, other_value, message_of, capture_error, webhook_delivery, WebhookPayload,
  Config, Answer, poll_events, Transport, delivery_report, deliver_webhook, deliver_all, run_once,
}

deliver_all_lem :
    (config : Config) (transport : Transport) (events : List WebhookPayload)
    → deliver_all config transport events
      ≡ (events, concat_map (λ e. delivery_report config e (transport e)) events)
unfolding deliver_all deliver_webhook
deliver_all_lem config transport [] = refl
deliver_all_lem config transport (event ∷ events) = rw (deliver_all_lem config transport events)

-- The deliveries that fail, each with what it says: the message of an error, or the text of what else is
-- thrown.
abbrev pub failure_of : WebhookPayload → Result Thrown (Unit {0}) → List (WebhookPayload × JsString)
failure_of e (ok _) = []
failure_of e (throws (error_object message)) = (e, message) ∷ []
failure_of e (throws (other_value text)) = (e, text) ∷ []

delivery_report_lem :
    (config : Config) (e : WebhookPayload) (outcome : Result Thrown (Unit {0}))
    → delivery_report config e outcome
      ≡ map
          (λ f. record { message = f.1; context = webhook_delivery config.webhook_url f.0.event })
          (failure_of e outcome)
unfolding delivery_report capture_error message_of
delivery_report_lem config e (ok _) = refl
delivery_report_lem config e (throws (error_object message)) = refl
delivery_report_lem config e (throws (other_value text)) = refl

reports_lem :
    (config : Config) (transport : Transport) (events : List WebhookPayload)
    → concat_map (λ e. delivery_report config e (transport e)) events
      ≡ concat_map
          (λ e.
            map
              (λ f. record {
                message = f.1;
                context = webhook_delivery config.webhook_url f.0.event;
              })
              (failure_of e (transport e)))
          events
reports_lem config transport [] = refl
reports_lem config transport (e ∷ events) =
    rw (delivery_report_lem config e (transport e), reports_lem config transport events) refl

-- One run posts exactly the events of its poll, each once and in order, whatever fails, and reports
-- the failure of the poll and then each delivery that failed, in order: with the message of what was
-- thrown, the address of the webhook and the kind of the event.
pub run_once_lem :
    (config : Config) (transport : Transport) (failures : ℕ) (answer : Result Thrown Answer)
    → let ran = run_once config transport failures answer in
      let polled = poll_events config failures answer in
      (ran.polled ≡ polled)
      × (ran.posts ≡ polled.events)
      × (ran.reports
          ≡ polled.reports
            ++ concat_map
                (λ e.
                  map
                    (λ f. record {
                      message = f.1;
                      context = webhook_delivery config.webhook_url f.0.event;
                    })
                    (failure_of e (transport e)))
                polled.events)
unfolding run_once
run_once_lem config transport failures answer =
    let events = (poll_events config failures answer).events in
    let sent = deliver_all_lem config transport events in
    (refl, ap (λ s. s.0) sent, rw (sent, reports_lem config transport events) refl)
