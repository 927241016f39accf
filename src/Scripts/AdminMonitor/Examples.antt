-- ===== src/Scripts/AdminMonitor/Examples.antt =====
-- The theorems on scripts/admin_monitor.js at a log with two records.
use cosmosvote.Prelude.{
  after, serve, utf8_length, ℕ, ◌+◌, ◌≤◌, ◌≡◌, refl, none, some, List, [], ◌∷◌, js, ◌===◌,
}
use cosmosvote.Frontend.Events.{governance, gov_paused, gov_unpaused, topics, governance_topic}
use cosmosvote.Scripts.AdminMonitor.{
  Alert, unwrapped, values_of, alert_from, topics_alert, alert_of, scan, poll_end, Monitor,
  start_monitor, begin_poll, end_poll, payload_of, json_text, json_unit, posted, send_slack_alert,
}
use cosmosvote.Scripts.AdminMonitor.Payloads.{send_slack_alert_short}
use cosmosvote.Scripts.AdminMonitor.Watched.{record_of, Published, records_of}

abbrev log : List Published
log =
    record { event = governance (gov_paused (js "GA")); id = js "7-1"; ledger = js "5" }
    ∷ record { event = governance (gov_unpaused (js "GA")); id = js "7-2"; ledger = js "6" }
    ∷ []

-- Two polls begin before the first is answered.
abbrev asking : Monitor
asking = begin_poll (begin_poll start_monitor)

abbrev answered_once : Monitor
answered_once = end_poll (serve (λ r. r.id) (records_of log) none) [] (none ∷ []) asking

abbrev answered_twice : Monitor
answered_twice = end_poll (serve (λ r. r.id) (records_of log) none) [] [] answered_once

abbrev alert : Alert
alert = record { subtype = js "paused"; event_id = js "7-1"; ledger = js "5" }

-- Both alert to the same event.
overlap_test : (answered_twice.cursor ≡ js "7-2") × (answered_twice.alerts ≡ alert ∷ alert ∷ [])
unfolding begin_poll end_poll start_monitor poll_end scan alert_of topics_alert alert_from values_of
    unwrapped record_of topics governance_topic serve after js ◌===◌
overlap_test = (refl, refl)

payload_test : payload_of (js "a\"b") ≡ js "{\"text\":\"🚨 *Admin Action Alert* 🚨\\na\\\"b\"}"
unfolding payload_of json_text json_unit js
payload_test = refl

send_slack_alert_short_example :
    (n : ℕ) × (send_slack_alert (some (js "https://hooks")) (js "hi")
      ≡ posted (js "https://hooks") (payload_of (js "hi")) n)
    × (n + 4 ≤ utf8_length (payload_of (js "hi")))
unfolding js
send_slack_alert_short_example = send_slack_alert_short (some (js "https://hooks")) (js "hi") refl
