-- ===== src/Notification/Notifier/Examples.antt =====
-- The theorems on notification-service/src/notifier.ts at a concrete subscriber.
use cosmosvote.Prelude.{◌≤◌, ◌≡◌, refl, none, some, [], ◌∷◌, map, js, length, throws}
use cosmosvote.Notification.Types.{num, GovernanceEvent, Subscriber}
use cosmosvote.Notification.Channels.{Env, channels}
use cosmosvote.Notification.Notifier.{error_object, Transport, notify}
use cosmosvote.Notification.Notifier.Isolation.{AreReports, planned, notify-planned, notify_reaches}

abbrev sample_event : GovernanceEvent
sample_event = record {
  type = js "created";
  proposal_id = some (js "7");
  ledger = num 120;
  raw = record { id = js "120-1"; topic = none; value = none; ledger_closed_at = none };
}

abbrev two_channels : Subscriber
two_channels = record {
  id = js "a";
  proposal_id = none;
  events = js "created" ∷ [];
  email = none;
  webhook_url = some (js "https://example.org/hook");
  slack_webhook_url = some (js "https://hooks.slack.com/x");
  discord_webhook_url = none;
}

abbrev quiet_env : Env
quiet_env = record { email_from = none; slack_webhook_url = none; discord_webhook_url = none }

abbrev offline : Transport
offline = λ _. throws (error_object (js "timeout"))

notify-planned_example :
    let plan = planned two_channels sample_event (channels quiet_env) in
    ((notify offline quiet_env two_channels sample_event).0 ≡ map (λ p. p.1) plan)
    × AreReports offline plan (notify offline quiet_env two_channels sample_event).1
notify-planned_example = notify-planned offline quiet_env two_channels sample_event

notify_reaches_example : 1 ≤ length (notify offline quiet_env two_channels sample_event).0
unfolding js
notify_reaches_example = notify_reaches offline quiet_env two_channels sample_event refl
