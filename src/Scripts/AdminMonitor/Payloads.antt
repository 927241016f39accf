-- ===== src/Scripts/AdminMonitor/Payloads.antt =====
-- The length that scripts/admin_monitor.js declares for what it posts.
use cosmosvote.Prelude.{
  utf8_length, utf8_length-le, unit_bytes, ℕ, ◌+◌, ◌≤◌, ◌≡◌, refl, Option, true, [], ◌∷◌, ◌++◌,
  arith, JsString, js, is_set, or_else, length,
}
use cosmosvote.Scripts.AdminMonitor.{json_unit, json_text, payload_of, posted, send_slack_alert}

payload_short :
    (message : JsString) → length (payload_of message) + 4 ≤ utf8_length (payload_of message)
unfolding payload_of json_text json_unit utf8_length unit_bytes js
payload_short message = omega (arith, utf8_length-le (json_text (10 ∷ message) ++ 34 ∷ 125 ∷ []))

-- With a webhook, the length that is declared for the payload is at least four bytes less than the payload
-- has in UTF-8.
pub send_slack_alert_short :
    (webhook : Option JsString) (message : JsString)
    → is_set webhook ≡ true
    → (n : ℕ) × (send_slack_alert webhook message
        ≡ posted (or_else webhook []) (payload_of message) n)
      × (n + 4 ≤ utf8_length (payload_of message))
unfolding send_slack_alert
send_slack_alert_short webhook message h =
    (length (payload_of message), rw h refl, payload_short message)
