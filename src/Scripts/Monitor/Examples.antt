-- ===== src/Scripts/Monitor/Examples.antt =====
-- The theorems on scripts/monitor.js at concrete events and servers.
use cosmosvote.Prelude.{
  to_bigint, parse_int, trim_start, is_space, pos, ◌-◌, ◌≡◌, refl, Option, none, some, Bool, true,
  false, List, [], ◌∷◌, JsString, js, ◌===◌, trim, if◌then◌else◌, ok, throws,
}
use cosmosvote.Frontend.Events.{governance, token, topics, gov_vote_cast, gov_admin_transferred}
use cosmosvote.Frontend.Events as Events
use cosmosvote.Frontend.Proposals.{yes}
use cosmosvote.Scripts.Monitor.{
  Thresholds, Event, Entry, rapid_vote_burst_found, admin_change_detected, suspicious_admin_changes,
  large_token_transfer, token_minted, events_fetched, reaches, includes, is_admin_change, is_vote,
  admin_run, amount_run, transfer_run, notices, event_run, detect_from, detect_anomalies,
}
use cosmosvote.Scripts.Monitor.Polling.{
  Environment, Config, config_of, answered, symbol, Server, request_of, fetched_of, fetch_events,
  event_of, Cursors, batch_run, poll_end, poll, polls, main,
}
use cosmosvote.Scripts.Monitor.Alerts.{Kind, is_large, count}
use cosmosvote.Scripts.Monitor.Counts.{alerts, detect_anomalies_counts}
use cosmosvote.Scripts.Monitor.Silence.{Published}
use cosmosvote.Scripts.Monitor.Turns.{polls_blind}

abbrev unset : Environment
unset = record {
  stellar_rpc_url = none;
  governance_contract_id = some (js "CGOV");
  token_contract_id = none;
  poll_interval_ms = none;
  large_transfer_threshold = some [];
  rapid_vote_burst = some (js "1 vote");
  admin_change_count = none;
}

abbrev thresholds : Thresholds
thresholds = record {
  large_transfer_amount = pos 1000000000000;
  rapid_vote_burst = some (pos 1);
  admin_change_count = some (pos 2);
}

abbrev config : Config
config = record {
  rpc_url = js "https://soroban-testnet.stellar.org";
  governance_contract_id = js "CGOV";
  token_contract_id = [];
  poll_interval_ms = some (pos 30000);
  thresholds = thresholds;
}

config_test : config_of unset ≡ some config
unfolding config_of to_bigint parse_int js trim trim_start is_space
config_test = refl

abbrev event : List JsString → Option JsString → Event
event topics amount = record {
  event_type = js "contract";
  contract_id = js "C";
  topics = topics;
  value =
      some (record { amount = amount; from_ = none; to_ = none; proposal_id = none; admin = none });
}

abbrev batch : List Event
batch =
    event (js "set_admin" ∷ []) none
    ∷ event (js "transfer" ∷ []) (some (js "1000000000000"))
    ∷ event (js "update_config" ∷ js "mint" ∷ []) none
    ∷ event (js "vote_cast" ∷ []) none
    ∷ []

batch_quiet : (detect_anomalies thresholds batch).thrown ≡ none
unfolding detect_anomalies detect_from event_run admin_run transfer_run amount_run notices
    is_admin_change is_vote to_bigint js ◌===◌ trim trim_start is_space
batch_quiet = refl

batch_test :
    (detect_anomalies thresholds batch).entries
    ≡ admin_change_detected (js "C") (js "set_admin" ∷ [])
      ∷ large_token_transfer (js "C") none none (pos 1000000000000) (pos 1000000000000)
      ∷ admin_change_detected (js "C") (js "update_config" ∷ js "mint" ∷ [])
      ∷ suspicious_admin_changes (js "C") 2 (js "update_config" ∷ js "mint" ∷ [])
      ∷ token_minted (js "C") none none
      ∷ rapid_vote_burst_found 1 (some (pos 1))
      ∷ []
unfolding detect_anomalies detect_from event_run admin_run transfer_run amount_run notices
    is_admin_change is_vote to_bigint js ◌===◌ trim trim_start is_space
batch_test = refl

-- An amount that is no integer ends the batch.
torn_test :
    detect_anomalies thresholds (event (js "transfer" ∷ []) (some (js "1.5")) ∷ batch)
    ≡ record { entries = []; thrown = some (js "SyntaxError") }
unfolding detect_anomalies detect_from event_run admin_run transfer_run amount_run notices
    is_admin_change is_vote to_bigint js ◌===◌ trim trim_start is_space
torn_test = refl

detect_anomalies_counts_example :
    (alerts thresholds Kind.changes batch ≡ count is_admin_change batch - 1)
    × (alerts thresholds Kind.burst batch
        ≡ (if reaches (count is_vote batch) thresholds.rapid_vote_burst then 1 else 0))
    × (alerts thresholds Kind.large batch ≡ count (is_large thresholds) batch)
    × (alerts thresholds Kind.cancelled batch
        ≡ count (λ ev. includes ev.topics (js "proposal_cancelled")) batch)
    × (alerts thresholds Kind.paused batch
        ≡ count (λ ev. includes ev.topics (js "contract_paused")) batch)
    × (alerts thresholds Kind.minted batch ≡ count (λ ev. includes ev.topics (js "mint")) batch)
detect_anomalies_counts_example = detect_anomalies_counts thresholds 1 batch refl batch_quiet

abbrev published : List Published
published =
    record {
      event = governance (gov_admin_transferred (js "GA") (js "GB"));
      contract_id = js "C";
      value = none;
    }
    ∷ record {
      event = governance (gov_vote_cast 1 (js "GA") yes 5);
      contract_id = js "C";
      value = none;
    }
    ∷ record {
      event = token (Events.token_minted (js "GA") (js "GB") 7);
      contract_id = js "T";
      value = none;
    }
    ∷ []

abbrev down : Server
down request = throws (js "fetch failed")

abbrev turns : List (Server × Bool)
turns = (down, true) ∷ (down, false) ∷ []

abbrev cursors : Cursors
cursors = record { gov_cursor = some (js "c7"); token_cursor = none }

-- A server that wants a ledger's number where a cursor is sent.
abbrev strict : Server
strict request = elim request.start_ledger [
  | none ↦ ok (
      answered (record {
        events = some (
            record {
              event_type = js "contract";
              contract_id = js "CGOV";
              topic = some (symbol (js "vote_cast") ∷ []);
              value = none;
            }
            ∷ []);
        cursor = some (js "c7");
      }))
  | some start ↦ ok (answered (record { events = none; cursor = none }))
]

main_test : main config ((strict, true) ∷ (strict, true) ∷ []) ≡ (
  cursors,
  Entry.monitor_started ∷ events_fetched 1 ∷ rapid_vote_burst_found 1 (some (pos 1)) ∷ [],
)
unfolding main polls poll poll_end batch_run fetch_events request_of fetched_of event_of
    detect_anomalies detect_from event_run admin_run transfer_run amount_run notices is_admin_change
    is_vote to_bigint js ◌===◌ trim trim_start is_space
main_test = refl

polls_blind_example : polls config ((strict, true) ∷ (strict, true) ∷ []) cursors ≡ (cursors, [])
unfolding js
polls_blind_example =
    polls_blind config ((strict, true) ∷ (strict, true) ∷ []) cursors (λ e. refl) (λ e. cc)
      (λ r start e. rw e refl, (λ r start e. rw e refl, tt))
