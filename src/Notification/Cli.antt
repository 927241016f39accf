-- ===== src/Notification/Cli.antt =====
-- notification-service/src/index.ts: the command line. Loading dotenv is left out: the environment is a
-- parameter. `process.exit(1)` ends the run and is an output.
mod Examples
pub mod Commands
use cosmosvote.Prelude.{
  Option, none, Bool, true, false, not, ◌&&◌, List, [], ◌∷◌, ◌++◌, map, JsString, js, ◌===◌, is_set,
  or_else, split, trim, if◌then◌else◌, get_elem?, Result, ok, throws,
}
use cosmosvote.Notification.Types.{Subscriber, GovernanceEventType}
use cosmosvote.Notification.Subscriptions.{
  Disk, StoreError, Options, add_subscriber, remove_subscriber, list_subscribers,
}
use cosmosvote.Notification.Channels.{Env}
use cosmosvote.Notification.Notifier.{Transport}
use cosmosvote.Notification.Watcher.{Horizon, Notified, start_watcher}

pub all_events : List GovernanceEventType
all_events = js "created" ∷ js "voted" ∷ js "final" ∷ js "exec" ∷ js "cancel" ∷ []

-- `process.argv` behind its first two entries.
pub record Parsed : Type 0 where
  pub cmd : JsString
  pub args : List JsString

pub parse_args : List JsString → Parsed
parse_args [] = record { cmd = js "start"; args = [] }
parse_args (cmd ∷ args) = record { cmd = cmd; args = args }

-- `args[args.indexOf(option) + 1]`, or undefined where the option or the value is missing.
pub value_behind : JsString → List JsString → Option JsString
value_behind option [] = none
value_behind option (a ∷ args) =
    let later = value_behind option args in if a === option then get_elem? args 0 else later

pub flag : List JsString → JsString → Option JsString
flag args name = value_behind (js "--" ++ name) args

pub parse_events : Option JsString → List GovernanceEventType
parse_events raw = if not (is_set raw) then all_events else map trim (split b',' (or_else raw []))

-- What a command prints, or that it ends by `process.exit(1)`: with a message, or with an error of the
-- store that `main().catch` prints.
pub data Output : Type 0 where
  subscriber_added : Subscriber → Output
  said : JsString → Output
  subscribers_listed : List Subscriber → Output
  watched : List Notified → Output
  exits : JsString → Output
  failed : StoreError → Output

pub options_of : List JsString → Options
options_of args = record {
  proposal_id = flag args (js "proposal-id");
  events = parse_events (flag args (js "events"));
  email = flag args (js "email");
  webhook_url = flag args (js "webhook");
  slack_webhook_url = flag args (js "slack");
  discord_webhook_url = flag args (js "discord");
}

-- `!email && !webhookUrl && !slackWebhookUrl && !discordWebhookUrl`
pub lacks_channel : Options → Bool
lacks_channel opts =
    not (is_set opts.email)
    && not (is_set opts.webhook_url)
    && not (is_set opts.slack_webhook_url)
    && not (is_set opts.discord_webhook_url)

pub channel_usage : JsString
channel_usage =
    js "Error: at least one channel is required."
    ++ 10 ∷ js "Use: --email <addr>, --webhook <url>, --slack <url>, or --discord <url>"

pub added : Disk → Result StoreError (Subscriber × Disk) → Output × Disk
added d (ok (s, d')) = (subscriber_added s, d')
added d (throws e) = (failed e, d)

pub subscribe : JsString → List JsString → Disk → Output × Disk
subscribe uuid args d =
    let opts = options_of args in
    if lacks_channel opts then (exits channel_usage, d) else added d (add_subscriber opts uuid d)

pub removed : JsString → Disk → Result StoreError (Bool × Disk) → Output × Disk
removed id d (ok (true, d')) = (said (js "Removed subscriber " ++ id), d')
removed id d (ok (false, d')) = (said (js "No subscriber found with id " ++ id), d')
removed id d (throws e) = (failed e, d)

pub unsubscribe : List JsString → Disk → Output × Disk
unsubscribe args d =
    let id = get_elem? args 0 in
    if not (is_set id)
    then (exits (js "Usage: unsubscribe <id>"), d)
    else removed (or_else id []) d (remove_subscriber (or_else id []) d)

pub watching : Disk → Result JsString (Disk × List Notified) → Output × Disk
watching d (ok (d', notified)) = (watched notified, d')
watching d (throws message) = (exits message, d)

module _ (transport : Transport) (env : Env) (contract_id : JsString) (servers : List Horizon)
    (uuid : JsString) where
  -- The `switch` of `main`, with the `catch` behind it.
  pub main : Parsed → Disk → Output × Disk
  main parsed d =
      if parsed.cmd === js "start"
      then watching d (start_watcher transport env contract_id servers d)
      else if parsed.cmd === js "subscribe"
      then subscribe uuid parsed.args d
      else if parsed.cmd === js "unsubscribe"
      then unsubscribe parsed.args d
      else if parsed.cmd === js "list"
      then (subscribers_listed (list_subscribers d), d)
      else (exits (js "Unknown command: " ++ parsed.cmd), d)
