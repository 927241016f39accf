-- ===== src/Scripts/Monitor/Polling.antt =====
-- scripts/monitor.js: the configuration, the calls of the RPC server, which is a parameter, and the loop.
use cosmosvote.Prelude.{
  to_bigint, parse_int, ℤ, ℕ, Option, none, some, Bool, List, [], ◌∷◌, ◌++◌, map, JsString, js,
  truthy, is_set, nullish, or_else, if◌then◌else◌, length, Result, ok, throws, ◌>>=◌,
}
use cosmosvote.Scripts.Monitor.{
  Thresholds, Value, Event, Entry, events_fetched, poll_failed, monitor_started, Run, logs, ◌then◌,
  detect_anomalies,
}

-- `process.env`
pub record Environment : Type 0 where
  pub stellar_rpc_url : Option JsString
  pub governance_contract_id : Option JsString
  pub token_contract_id : Option JsString
  pub poll_interval_ms : Option JsString
  pub large_transfer_threshold : Option JsString
  pub rapid_vote_burst : Option JsString
  pub admin_change_count : Option JsString

pub record Config : Type 0 where
  pub rpc_url : JsString
  pub governance_contract_id : JsString
  pub token_contract_id : JsString
  pub poll_interval_ms : Option ℤ
  pub thresholds : Thresholds

-- `variable || text`
abbrev pub or_text : Option JsString → JsString → JsString
or_text variable text = if is_set variable then or_else variable [] else text

-- `CONFIG`; none where `BigInt` throws.
unfoldable pub config_of : Environment → Option Config
config_of env = elim (to_bigint (or_text env.large_transfer_threshold (js "1000000000000"))) [
  | none ↦ none
  | some large ↦ some (record {
    rpc_url = or_text env.stellar_rpc_url (js "https://soroban-testnet.stellar.org");
    governance_contract_id = or_text env.governance_contract_id [];
    token_contract_id = or_text env.token_contract_id [];
    poll_interval_ms = parse_int (or_text env.poll_interval_ms (js "30000"));
    thresholds = record {
      large_transfer_amount = large;
      rapid_vote_burst = parse_int (or_text env.rapid_vote_burst (js "50"));
      admin_change_count = parse_int (or_text env.admin_change_count (js "2"));
    };
  })
]

-- A topic as the server sends it: an object with the field `sym`, or a string.
pub data Topic : Type 0 where
  symbol plain : JsString → Topic

pub record RawEvent : Type 0 where
  pub event_type : JsString
  pub contract_id : JsString
  pub topic : Option (List Topic)
  pub value : Option Value

-- The parsed body: the result's events and its cursor, where they are there.
pub record Body : Type 0 where
  pub events : Option (List RawEvent)
  pub cursor : Option JsString

-- A response with `ok` false has a status line.
pub data Response : Type 0 where
  refused : (status status_text : JsString) → Response
  answered : Body → Response

pub record Request : Type 0 where
  pub url : JsString
  pub start_ledger : Option JsString
  pub contract_ids : List JsString
  pub limit : ℕ

-- `fetch` and the parsing of the body: a response, or an error's message.
abbrev pub Server : Type 0
Server = Request → Result JsString Response

abbrev pub topic_name : Topic → JsString
topic_name (symbol s) = s
topic_name (plain s) = s

unfoldable pub event_of : RawEvent → Event
event_of e = record {
  event_type = e.event_type;
  contract_id = e.contract_id;
  topics = map topic_name (or_else e.topic []);
  value = e.value;
}

pub record Fetched : Type 0 where
  pub events : List Event
  pub cursor : Option JsString

unfoldable pub request_of : Config → JsString → Option JsString → Request
request_of config contract_id cursor = record {
  url = config.rpc_url;
  start_ledger = if is_set cursor then cursor else none;
  contract_ids = contract_id ∷ [];
  limit = 200;
}

unfoldable pub fetched_of : Option JsString → Response → Result JsString Fetched
unfolding event_of
fetched_of cursor (refused status text) = throws (js "RPC error: " ++ status ++ js " " ++ text)
fetched_of cursor (answered body) =
    ok (record {
      events = map event_of (or_else body.events []);
      cursor = nullish body.cursor cursor;
    })

unfoldable pub fetch_events : Config → Server → JsString → Option JsString → Result JsString Fetched
unfolding request_of fetched_of
fetch_events config server contract_id cursor =
    let fetched : Result JsString Fetched = do
      response ← server (request_of config contract_id cursor)
      fetched_of cursor response
    in if truthy contract_id then fetched else ok (record { events = []; cursor = cursor })

pub record Cursors : Type 0 where
  pub gov_cursor : Option JsString
  pub token_cursor : Option JsString

-- `Promise.all` of two calls: where both throw, the first to do so is told; whether that is the left one
-- is a parameter.
abbrev pub both :
    {A : Type 0} → Bool → Result JsString A → Result JsString A → Result JsString (A × A)
both left_first (ok a) (ok b) = ok (a, b)
both left_first (throws e) (ok b) = throws e
both left_first (ok a) (throws f) = throws f
both left_first (throws e) (throws f) = throws (if left_first then e else f)

-- The `catch`: what was thrown becomes a line.
abbrev pub caught : Run → List Entry
caught r = r.entries ++ error_line r.thrown
  where
    error_line : Option JsString → List Entry
    error_line none = []
    error_line (some e) = poll_failed e ∷ []

unfoldable pub batch_run : Config → List Event → Run
batch_run config [] = logs []
batch_run config (ev ∷ events) =
    logs (events_fetched (length (ev ∷ events)) ∷ [])
    then detect_anomalies config.thresholds (ev ∷ events)

unfoldable pub poll_end :
    Config → Cursors → Result JsString (Fetched × Fetched) → Cursors × List Entry
unfolding batch_run
poll_end config cursors (throws e) = (cursors, poll_failed e ∷ [])
poll_end config cursors (ok (gov, token)) = (
  record { gov_cursor = gov.cursor; token_cursor = token.cursor },
  caught (batch_run config (gov.events ++ token.events)),
)

-- One turn of the loop.
unfoldable pub poll : Config → Server → Bool → Cursors → Cursors × List Entry
unfolding fetch_events poll_end
poll config server left_first cursors = poll_end config cursors (
    both left_first (fetch_events config server config.governance_contract_id cursors.gov_cursor)
      (fetch_events config server config.token_contract_id cursors.token_cursor))

-- The loop over the servers that the turns meet.
unfoldable pub polls : Config → List (Server × Bool) → Cursors → Cursors × List Entry
unfolding poll
polls config [] cursors = (cursors, [])
polls config ((server, left_first) ∷ turns) cursors =
    let (next, entries) = poll config server left_first cursors in
    let (last, more) = polls config turns next in (last, entries ++ more)

unfoldable pub main : Config → List (Server × Bool) → Cursors × List Entry
unfolding polls
main config turns =
    let (last, entries) = polls config turns (record { gov_cursor = none; token_cursor = none }) in
    (last, monitor_started ∷ entries)
