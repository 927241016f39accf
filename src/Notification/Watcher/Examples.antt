-- ===== src/Notification/Watcher/Examples.antt =====
-- The theorems on notification-service/src/watcher.ts at a concrete log and server.
use cosmosvote.Prelude.{
  serve, ◌*◌, ◌≡◌, refl, ◌↔◌, none, some, true, List, [], ◌∷◌, js, ◌===◌, differ, to_decimal,
  of_decimal, split, replicate, take, In, choose, ok, String,
}
use cosmosvote.Notification.Types.{num, Topic, EventRecord, GovernanceEvent, Subscriber}
use cosmosvote.Notification.Subscriptions.{Disk}
use cosmosvote.Notification.Channels.{Env}
use cosmosvote.Notification.Notifier.{Transport}
use cosmosvote.Notification.Watcher.{
  tracked_topics, topic_value, first_value, first_part, ledger_of, event_of, relevant_event,
  parse_topics, parse_event, collect, notify_one, process_events, polls,
}
use cosmosvote.Notification.Subscriptions.{absent}
use cosmosvote.Notification.Subscriptions.Cursor.{get_store_absent}
use cosmosvote.Notification.Watcher.Events.{IsEventOf, parse_event_iff}
use cosmosvote.Notification.Watcher.Dispatch.{IsDue, process_events_iff}
use cosmosvote.Notification.Watcher.Polls.{PollOutcome, poll_outcome, polls_stuck}
use cosmosvote.Notification.Watcher.Catchup.{polls_catch_up}

abbrev symbol : String → Topic
symbol s = record { type = js "symbol"; value = some (js s) }

abbrev record_of : String → String → String → EventRecord
record_of id ns subtype = record {
  id = js id;
  topic = some (symbol ns ∷ symbol subtype ∷ []);
  value = some (some (some (js "7") ∷ []));
  ledger_closed_at = some (js "2026-01-01T00:00:00Z");
}

abbrev vote_record : EventRecord
vote_record = record_of "120-1" "gov" "voted"

abbrev pause_record : EventRecord
pause_record = record_of "121-1" "gov" "paused"

abbrev fresh_disk : Disk
fresh_disk = record { content = absent; writable = true }

abbrev quiet_env : Env
quiet_env = record { email_from = none; slack_webhook_url = none; discord_webhook_url = none }

abbrev online : Transport
online = λ _. ok tt

all_open : Unit {0}
unfolding parse_event parse_topics relevant_event event_of topic_value first_value first_part
    ledger_of tracked_topics js ◌===◌ split of_decimal to_decimal collect
all_open = tt

parse_event_tests :
    (parse_event vote_record
      ≡ some (record {
        type = js "voted";
        proposal_id = some (js "7");
        ledger = num 120;
        raw = vote_record;
      }))
    × (parse_event pause_record ≡ none)
    × (parse_event (record_of "122-1" "token" "created") ≡ none)
unfolding all_open
parse_event_tests = (refl, refl, refl)

parse_event_iff_example :
    (parse_event vote_record ≡ some (event_of vote_record (symbol "gov" ∷ symbol "voted" ∷ [])))
    ↔ IsEventOf vote_record (event_of vote_record (symbol "gov" ∷ symbol "voted" ∷ []))
parse_event_iff_example =
    parse_event_iff vote_record (event_of vote_record (symbol "gov" ∷ symbol "voted" ∷ []))

abbrev log : List EventRecord
log = vote_record ∷ pause_record ∷ []

abbrev vote_event : GovernanceEvent
vote_event = event_of vote_record (symbol "gov" ∷ symbol "voted" ∷ [])

abbrev voter : Subscriber
voter = record {
  id = js "a";
  proposal_id = none;
  events = js "voted" ∷ [];
  email = some (js "dao@example.org");
  webhook_url = none;
  slack_webhook_url = none;
  discord_webhook_url = none;
}

process_events_iff_example :
    In
      (notify_one online quiet_env vote_event voter)
      (process_events online quiet_env (vote_event ∷ []) fresh_disk)
    ↔ IsDue online quiet_env
        (vote_event ∷ [])
        fresh_disk
        (notify_one online quiet_env vote_event voter)
process_events_iff_example =
    process_events_iff online quiet_env (vote_event ∷ []) fresh_disk
      (notify_one online quiet_env vote_event voter)

poll_outcome_example : PollOutcome online quiet_env (serve (λ r. r.id) log) fresh_disk
poll_outcome_example = poll_outcome online quiet_env (serve (λ r. r.id) log) fresh_disk

polls_stuck_example :
    polls online quiet_env (replicate 3 (λ _. ok (pause_record ∷ []))) fresh_disk ≡ (fresh_disk, [])
unfolding all_open
polls_stuck_example =
    polls_stuck online quiet_env (λ _. ok (pause_record ∷ [])) fresh_disk (pause_record ∷ []) 3 refl
      refl

polls_catch_up_example :
    (polls online quiet_env (replicate 1 (serve (λ r. r.id) log)) fresh_disk).1
    ≡ process_events online quiet_env (choose parse_event (take (1 * 50) log)) fresh_disk
unfolding all_open
polls_catch_up_example =
    polls_catch_up online quiet_env log (((differ (js "120-1") (js "121-1") refl, tt), (tt, tt)))
      (differ (js "120-1") (js "now") refl, (differ (js "121-1") (js "now") refl, tt)) 1 fresh_disk
      (get_store_absent fresh_disk refl) refl ((λ e. cc), tt)
