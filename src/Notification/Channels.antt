-- ===== src/Notification/Channels.antt =====
-- notification-service/src/channels.ts: the messages and the four channels. What a channel sends is a
-- value; the mail and HTTP libraries that carry it are a parameter of `Notifier`.
pub mod Guards
use cosmosvote.Prelude.{
  ℕ, Option, none, some, Bool, not, List, [], ◌∷◌, ◌++◌, JsString, js, is_set, lookup, to_decimal,
  nullish, or_else, if◌then◌else◌,
}
use cosmosvote.Notification.Types.{JsNumber, num, nan, GovernanceEvent, Subscriber}

-- A number in a template literal.
pub show_number : JsNumber → JsString
show_number (num n) = to_decimal n
show_number nan = js "NaN"

pub newline : JsString
newline = 10 ∷ []

pub labels : List (JsString × JsString)
labels =
    (js "created", js "A new governance proposal has been created.")
    ∷ (js "voted", js "A vote has been cast on a proposal.")
    ∷ (js "final", js "A proposal has been finalized.")
    ∷ (js "exec", js "A proposal has been executed.")
    ∷ (js "cancel", js "A proposal has been cancelled.")
    ∷ []

pub build_text_message : GovernanceEvent → JsString
build_text_message event =
    let base = or_else (lookup event.type labels) (js "Governance event: " ++ event.type) in
    if is_set event.proposal_id
    then base
      ++ newline
      ++ js "Proposal ID: "
      ++ or_else event.proposal_id []
      ++ newline
      ++ js "Ledger: "
      ++ show_number event.ledger
    else base ++ newline ++ js "Ledger: " ++ show_number event.ledger

pub verbs : List (JsString × JsString)
verbs =
    (js "created", js "created")
    ∷ (js "voted", js "vote cast on")
    ∷ (js "final", js "finalized")
    ∷ (js "exec", js "executed")
    ∷ (js "cancel", js "cancelled")
    ∷ []

pub build_subject_line : GovernanceEvent → JsString
build_subject_line event =
    let action = or_else (lookup event.type verbs) event.type in
    if is_set event.proposal_id
    then js "CosmosVote: proposal #" ++ or_else event.proposal_id [] ++ js " " ++ action
    else js "CosmosVote: proposal " ++ action

-- The variables of the environment that the channels read.
pub record Env : Type 0 where
  pub email_from : Option JsString
  pub slack_webhook_url : Option JsString
  pub discord_webhook_url : Option JsString

pub record SlackBlock : Type 0 where
  pub type : JsString
  pub text_type : JsString
  pub text : JsString

pub data Body : Type 0 where
  event_body : GovernanceEvent → Body
  slack_body : JsString → List SlackBlock → Body
  content_body : JsString → Body

-- One call of `transporter.sendMail` or of `axios.post`, with its timeout.
pub data Delivery : Type 0 where
  mail : (from : Option JsString) (to subject text : JsString) → Delivery
  post : (url : JsString) (body : Body) (timeout : ℕ) → Delivery

-- `is_configured`, and what `send` hands to the network; none where it returns at once.
pub record Channel : Type 0 where
  pub name : JsString
  pub is_configured : Subscriber → Bool
  pub send : Subscriber → GovernanceEvent → Option Delivery

module _ (env : Env) where
  pub email_channel : Channel
  email_channel = record {
    name = js "email";
    is_configured = λ s. is_set s.email;
    send = λ s event.
        if not (is_set s.email)
        then none
        else some (
            mail env.email_from (or_else s.email []) (build_subject_line event)
              (build_text_message event));
  }

  pub webhook_channel : Channel
  webhook_channel = record {
    name = js "webhook";
    is_configured = λ s. is_set s.webhook_url;
    send = λ s event.
        if not (is_set s.webhook_url)
        then none
        else some (post (or_else s.webhook_url []) (event_body event) 10000);
  }

  pub emoji : List (JsString × JsString)
  emoji =
      (js "created", js ":memo:")
      ∷ (js "voted", js ":ballot_box:")
      ∷ (js "final", js ":checkered_flag:")
      ∷ (js "exec", js ":rocket:")
      ∷ (js "cancel", js ":x:")
      ∷ []

  pub fence : JsString
  fence = js "```"

  pub slack_message : GovernanceEvent → Body
  slack_message event =
      let icon = or_else (lookup event.type emoji) (js ":bell:") in
      slack_body (icon ++ js " *CosmosVote* — " ++ build_subject_line event) (
        record {
          type = js "section";
          text_type = js "mrkdwn";
          text =
              icon
              ++ js " *"
              ++ build_subject_line event
              ++ js "*"
              ++ newline
              ++ fence
              ++ build_text_message event
              ++ fence;
        }
        ∷ [])

  pub slack_channel : Channel
  slack_channel = record {
    name = js "slack";
    is_configured = λ s. is_set (nullish s.slack_webhook_url env.slack_webhook_url);
    send = λ s event.
        let url = nullish s.slack_webhook_url env.slack_webhook_url in
        if not (is_set url) then none else some (post (or_else url []) (slack_message event) 10000);
  }

  pub discord_channel : Channel
  discord_channel = record {
    name = js "discord";
    is_configured = λ s. is_set (nullish s.discord_webhook_url env.discord_webhook_url);
    send = λ s event.
        let url = nullish s.discord_webhook_url env.discord_webhook_url in
        if not (is_set url)
        then none
        else some (
            post (or_else url [])
              (content_body (
                js "**CosmosVote** — "
                ++ build_subject_line event
                ++ newline
                ++ fence
                ++ newline
                ++ build_text_message event
                ++ newline
                ++ fence))
              10000);
  }

  pub channels : List Channel
  channels = email_channel ∷ webhook_channel ∷ slack_channel ∷ discord_channel ∷ []
