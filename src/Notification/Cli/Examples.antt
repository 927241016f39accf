-- ===== src/Notification/Cli/Examples.antt =====
-- The theorems on notification-service/src/index.ts at concrete command lines.
use cosmosvote.Prelude.{
  trim_start, is_space, ◌≡◌, refl, none, some, true, List, [], ◌∷◌, JsString, js, ◌===◌, split,
  trim, ok,
}
use cosmosvote.Notification.Subscriptions.{absent, Disk}
use cosmosvote.Notification.Channels.{Env}
use cosmosvote.Notification.Notifier.{Transport}
use cosmosvote.Notification.Cli.{value_behind, flag, parse_events}

abbrev fresh_disk : Disk
fresh_disk = record { content = absent; writable = true }

abbrev quiet_env : Env
quiet_env = record { email_from = none; slack_webhook_url = none; discord_webhook_url = none }

abbrev online : Transport
online = λ _. ok tt

abbrev mail_args : List JsString
mail_args = js "--email" ∷ js "dao@example.org" ∷ js "--events" ∷ js "created, final" ∷ []

options_tests :
    (flag mail_args (js "email") ≡ some (js "dao@example.org"))
    × (flag mail_args (js "slack") ≡ none)
    × (parse_events (flag mail_args (js "events")) ≡ js "created" ∷ js "final" ∷ [])
unfolding flag value_behind parse_events js ◌===◌ split trim trim_start is_space
options_tests = (refl, refl, refl)
