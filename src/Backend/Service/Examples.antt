-- ===== src/Backend/Service/Examples.antt =====
-- The theorems on backend/src/notificationService.ts at concrete answers.
use cosmosvote.Prelude.{
  map, min, ◌≡◌, refl, none, some, true, [], ◌∷◌, ◌++◌, js, leb, ◌==◌, if◌then◌else◌, length,
  concat_map, Result, ok, throws,
}
use cosmosvote.Backend.Service.{
  webhook_delivery, Thrown, error_object, other_value, WebhookPayload, Config, Answer, answered,
  poll_failed, poll_events, Transport, run_once, poll_all,
}
use cosmosvote.Backend.Service.Failures.{poll_events-failures_since}
use cosmosvote.Backend.Service.Deliveries.{failure_of, run_once_lem}

abbrev local_config : Config
local_config = record {
  rpc_url = js "http://localhost";
  contract_id = js "C1";
  webhook_url = js "http://hook";
  poll_interval_ms = none;
}

abbrev refused : Result Thrown Answer
refused = throws (error_object (js "ECONNREFUSED"))

abbrev vote_event : WebhookPayload
vote_event = record { contract_id = js "C1"; event = js "vote"; ledger = 7; payload = js "{}" }

abbrev close_event : WebhookPayload
close_event = record { contract_id = js "C1"; event = js "close"; ledger = 8; payload = js "{}" }

abbrev closes_only : Transport
closes_only = λ e. if e.ledger == 8 then ok tt else throws (other_value (js "502"))

alert_test : (poll_events local_config 2 refused).alert_logged ≡ true
unfolding poll_events poll_failed
alert_test = refl

poll_events-failures_since_example :
    let p = poll_events local_config (poll_all local_config 0 (refused ∷ refused ∷ [])).0 refused in
    (p.consecutive_failures ≡ 3) × (p.alert_logged ≡ leb 3 3) × (length p.reports ≡ min 1 3)
poll_events-failures_since_example =
    poll_events-failures_since local_config (refused ∷ refused ∷ []) refused

run_once_lem_example :
    let answer = ok (answered (some (vote_event ∷ close_event ∷ []))) in
    let ran = run_once local_config closes_only 0 answer in
    let polled = poll_events local_config 0 answer in
    (ran.polled ≡ polled)
    × (ran.posts ≡ polled.events)
    × (ran.reports
        ≡ polled.reports
          ++ concat_map
              (λ e.
                map
                  (λ f. record {
                    message = f.1;
                    context = webhook_delivery local_config.webhook_url f.0.event;
                  })
                  (failure_of e (closes_only e)))
              polled.events)
run_once_lem_example =
    run_once_lem local_config closes_only 0 (ok (answered (some (vote_event ∷ close_event ∷ []))))
