-- ===== src/Notification/Channels/Guards.antt =====
-- The tests `isConfigured` and the guards inside `send`, of notification-service/src/channels.ts.
use cosmosvote.Prelude.{
  ◌≡◌, refl, ◌⊎◌, inl, inr, none, some, Bool, true, false, not, arith, if◌then◌else◌, any, All,
}
use cosmosvote.Notification.Types.{GovernanceEvent, Subscriber}
use cosmosvote.Notification.Subscriptions.History.{Reachable}
use cosmosvote.Notification.Channels.{
  Env, Channel, Delivery, channels, email_channel, webhook_channel, slack_channel, discord_channel,
}

-- The test and the guard agree: something is sent exactly where the channel is configured.
abbrev pub IsGuarded : Subscriber → GovernanceEvent → Channel → Type 0
IsGuarded s event ch =
    ((ch.is_configured s ≡ true) × ((d : Delivery) × (ch.send s event ≡ some d)))
    ⊎ ((ch.is_configured s ≡ false) × (ch.send s event ≡ none))

guarded :
    (s : Subscriber) (event : GovernanceEvent) (test : Bool) (d : Delivery)
    → ((test ≡ true) × ((d' : Delivery) × ((if not test then none else some d) ≡ some d')))
      ⊎ ((test ≡ false) × ((if not test then none else some d) ≡ none))
guarded s event true d = inl (refl, (d, refl))
guarded s event false d = inr (refl, refl)

pub channels-IsGuarded :
    (env : Env) (s : Subscriber) (event : GovernanceEvent) → All (IsGuarded s event) (channels env)
unfolding channels email_channel webhook_channel slack_channel discord_channel
channels-IsGuarded env s event =
    (guarded s event _ _, (guarded s event _ _, (guarded s event _ _, (guarded s event _ _, tt))))

pub any_configured :
    (env : Env) (s : Subscriber)
    → Reachable s
    → any (λ ch. ch.is_configured s) (channels env) ≡ true
unfolding channels email_channel webhook_channel slack_channel discord_channel
any_configured env s h = ground arith
