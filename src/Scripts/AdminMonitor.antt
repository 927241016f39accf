-- ===== src/Scripts/AdminMonitor.antt =====
-- scripts/admin_monitor.js: the records of the contract's events, the alerts and the polls. The Horizon
-- server and the HTTPS request are parameters. The timer does not wait for a poll to end, so that polls can
-- overlap.
pub mod Catchup
pub mod Watched
pub mod Turns
pub mod Payloads
mod Examples
use cosmosvote.Prelude.{
  serve, ◌≡◌, asked_for, ℕ, ◌+◌, ◌-◌, ◌/◌, ◌%◌, Option, none, some, Bool, false, ◌&&◌, ◌||◌, List,
  [], ◌∷◌, ◌++◌, JsString, js, ◌===◌, is_set, or_else, ltb, leb, ◌==◌, if◌then◌else◌, length,
  cons_some, any, Result, ok, throws,
}

-- A topic of a record: an object, with its field `value` where it has one, or a string.
pub data RawTopic : Type 0 where
  object : Option JsString → RawTopic
  plain : JsString → RawTopic

pub record Record : Type 0 where
  pub id : JsString
  pub topic : Option (List RawTopic)
  pub ledger_closed_at : JsString

abbrev pub admin_events : List JsString
admin_events =
    js "exec" ∷ js "cancel" ∷ js "paused" ∷ js "unpaused" ∷ js "admin_trans" ∷ js "quorum" ∷ []

-- `topic.value || topic`, which is a text or, here none, an object.
unfoldable pub unwrapped : RawTopic → Option JsString
unwrapped (object value) = if is_set value then value else none
unwrapped (plain s) = some s

abbrev pub as_it_is : RawTopic → Option JsString
as_it_is (object value) = none
as_it_is (plain s) = some s

-- `nsVal` and `subtypeVal`: both topics are unwrapped if the first is an object.
unfoldable pub values_of : RawTopic → RawTopic → Option JsString × Option JsString
unfolding unwrapped
values_of (object value) subtype = (unwrapped (object value), unwrapped subtype)
values_of (plain s) subtype = (some s, as_it_is subtype)

pub record Alert : Type 0 where
  pub subtype : JsString
  pub event_id : JsString
  pub ledger : JsString

abbrev pub is_text : Option JsString → JsString → Bool
is_text none s = false
is_text (some t) s = t === s

unfoldable pub alert_from : Record → Option JsString × Option JsString → Option Alert
alert_from r (namespace, none) = none
alert_from r (namespace, some subtype) =
    if is_text namespace (js "gov") && any (λ t. t === subtype) admin_events
    then some (record { subtype = subtype; event_id = r.id; ledger = r.ledger_closed_at })
    else none

-- Whether the record is alerted to, and the alert's data.
unfoldable pub topics_alert : Record → Option (List RawTopic) → Option Alert
unfolding values_of alert_from
topics_alert r (some (namespace ∷ subtype ∷ more)) = alert_from r (values_of namespace subtype)
topics_alert r _ = none

unfoldable pub alert_of : Record → Option Alert
unfolding topics_alert
alert_of r = topics_alert r r.topic

-- The loop over a page: the cursor behind it, and its alerts.
unfoldable pub scan : List Record → JsString → JsString × List Alert
unfolding alert_of
scan [] cursor = (cursor, [])
scan (r ∷ records) cursor =
    let (last, alerts) = scan records r.id in (last, cons_some (alert_of r) alerts)

unfoldable pub poll_end : JsString → Result JsString (List Record) → JsString × List Alert
unfolding scan
poll_end cursor (throws e) = (cursor, [])
poll_end cursor (ok records) = scan records cursor

-- The monitor: its cursor, the requests that are not answered, and the alerts so far.
pub record Monitor : Type 0 where
  pub cursor : JsString
  pub asked : List (Option JsString)
  pub alerts : List Alert

unfoldable pub start_monitor : Monitor
start_monitor = record { cursor = js "now"; asked = []; alerts = [] }

-- A call of the timer, up to its request.
unfoldable pub begin_poll : Monitor → Monitor
begin_poll m = record m { asked = m.asked ++ asked_for m.cursor ∷ [] }

-- The rest of it, when the answer comes to the request between the others.
unfoldable pub end_poll :
    Result JsString (List Record) → (front back : List (Option JsString)) → Monitor → Monitor
unfolding poll_end
end_poll answer front back m =
    let (cursor, alerts) = poll_end m.cursor answer in
    record { cursor = cursor; asked = front ++ back; alerts = m.alerts ++ alerts }

-- Polls begin and end in any order, on a server that has a log of records or fails.
pub data Reach (log : List Record) : Monitor → Type 0 where
  started : {m : Monitor} → m ≡ start_monitor → Reach log m
  begun : {l m : Monitor} → Reach log l → m ≡ begin_poll l → Reach log m
  answered :
      {l m : Monitor} (front back : List (Option JsString)) (cursor : Option JsString)
      → Reach log l
      → l.asked ≡ front ++ cursor ∷ back
      → m ≡ end_poll (serve (λ r. r.id) log cursor) front back l
      → Reach log m
  failed :
      {l m : Monitor} (front back : List (Option JsString)) (cursor : Option JsString)
      (e : JsString)
      → Reach log l
      → l.asked ≡ front ++ cursor ∷ back
      → m ≡ end_poll (throws e) front back l
      → Reach log m

abbrev pub alert_message : Alert → JsString
alert_message a =
    js "Admin event detected: *"
    ++ a.subtype
    ++ js "*\nEvent ID: `"
    ++ a.event_id
    ++ js "`\nLedger: "
    ++ a.ledger

abbrev hex_digit : ℕ → ℕ
hex_digit n = if ltb n 10 then b'0' + n else b'a' + (n - 10)

abbrev unicode_escape : ℕ → JsString
unicode_escape c =
    js "\\u"
    ++ hex_digit (c / 4096)
      ∷ hex_digit (c / 256 % 16)
      ∷ hex_digit (c / 16 % 16)
      ∷ hex_digit (c % 16)
      ∷ []

-- A code unit in a JSON string, for one that is not half of a pair.
unfoldable pub json_unit : ℕ → JsString
json_unit c =
    if c == 34
    then 92 ∷ 34 ∷ []
    else if c == 92
    then 92 ∷ 92 ∷ []
    else if c == 8
    then js "\\b"
    else if c == 9
    then js "\\t"
    else if c == 10
    then js "\\n"
    else if c == 12
    then js "\\f"
    else if c == 13
    then js "\\r"
    else if ltb c 32 || (leb 0xd800 c && leb c 0xdfff)
    then unicode_escape c
    else c ∷ []

-- `JSON.stringify` of a string, without its quotes.
unfoldable pub json_text : JsString → JsString
unfolding json_unit
json_text [] = []
json_text (c ∷ []) = json_unit c
json_text (c ∷ x ∷ s) =
    let pair = json_text s in
    let single = json_text (x ∷ s) in
    if (leb 0xd800 c && leb c 0xdbff) && (leb 0xdc00 x && leb x 0xdfff)
    then c ∷ x ∷ pair
    else json_unit c ++ single

unfoldable pub payload_of : JsString → JsString
unfolding json_text
payload_of message =
    js "{\"text\":\"" ++ json_text (js "🚨 *Admin Action Alert* 🚨\n" ++ message) ++ js "\"}"

-- What `sendSlackAlert` does: a line on the console, or a POST with a declared length.
pub data Sent : Type 0 where
  logged : JsString → Sent
  posted : (url payload : JsString) (content_length : ℕ) → Sent

unfoldable pub send_slack_alert : Option JsString → JsString → Sent
unfolding payload_of
send_slack_alert webhook message =
    let post = posted (or_else webhook []) (payload_of message) (length (payload_of message)) in
    if is_set webhook then post else logged message
