-- ===== src/Notification/Notifier/Isolation.antt =====
-- What `notify` of notification-service/src/notifier.ts does for each channel, whatever the others do.
use cosmosvote.Prelude.{
  sym, subst, false, Result, ok, throws, ◌≤◌, ◌≡◌, refl, inl, inr, Option, none, some, true, List,
  [], ◌∷◌, ◌++◌, map, arith, JsString, length, select, any, All,
}
use cosmosvote.Notification.Types.{GovernanceEvent, Subscriber, ChannelResult}
use cosmosvote.Notification.Subscriptions.History.{Reachable}
use cosmosvote.Notification.Channels.{Env, Channel, Delivery, channels}
use cosmosvote.Notification.Channels.Guards.{IsGuarded, channels-IsGuarded, any_configured}
use cosmosvote.Notification.Notifier.{
  Thrown, error_object, other_value, message_of, Transport, sent, result_of, attempt, configured,
  deliveries_of, notify,
}

module _ (s : Subscriber) (event : GovernanceEvent) where
  offer : JsString → Option Delivery → List (JsString × Delivery)
  offer name none = []
  offer name (some d) = (name, d) ∷ []

  -- Each channel with something to send, in the order of the registry.
  pub planned : List Channel → List (JsString × Delivery)
  unfolding offer
  planned [] = []
  planned (ch ∷ chs) = offer ch.name (ch.send s event) ++ planned chs

  abbrev chosen : List Channel → List Channel
  chosen = select (λ ch. ch.is_configured s)

  deliveries_of-planned :
      (chs : List Channel)
      → All (IsGuarded s event) chs
      → deliveries_of s event (chosen chs) ≡ map (λ p. p.1) (planned chs)
  unfolding deliveries_of planned
  deliveries_of-planned [] g = refl
  deliveries_of-planned (ch ∷ chs) (inl (c, (d, e)), g) = rw (c, e, deliveries_of-planned chs g)
  deliveries_of-planned (ch ∷ chs) (inr (c, e), g) = rw (c, e, deliveries_of-planned chs g)

  attempt-planned :
      (transport : Transport) (chs : List Channel)
      → All (IsGuarded s event) chs
      → map (attempt transport s event) (chosen chs)
        ≡ map (λ p. result_of p.0 (transport p.1)) (planned chs)
  unfolding attempt planned sent
  attempt-planned transport [] g = refl
  attempt-planned transport (ch ∷ chs) (inl (c, (d, e)), g) =
      rw (c, e, attempt-planned transport chs g)
  attempt-planned transport (ch ∷ chs) (inr (c, e), g) = rw (c, e, attempt-planned transport chs g)

-- What the result of a channel has to say of the outcome of its call: what was thrown is told by its
-- message, or by its text if it is no error.
abbrev pub IsReport : JsString → Result Thrown (Unit {0}) → ChannelResult → Type 0
IsReport name (ok _) r = (r.channel ≡ name) × (r.success ≡ true) × (r.error ≡ none)
IsReport name (throws (error_object message)) r =
    (r.channel ≡ name) × (r.success ≡ false) × (r.error ≡ some message)
IsReport name (throws (other_value text)) r =
    (r.channel ≡ name) × (r.success ≡ false) × (r.error ≡ some text)

-- The results, one for each channel, report what the calls of the channels came to.
abbrev pub AreReports : Transport → List (JsString × Delivery) → List ChannelResult → Type 0
AreReports transport [] rs = rs ≡ []
AreReports transport (p ∷ ps) [] = ⊥
AreReports transport (p ∷ ps) (r ∷ rs) = IsReport p.0 (transport p.1) r × AreReports transport ps rs

result_of-IsReport :
    (name : JsString) (outcome : Result Thrown (Unit {0}))
    → IsReport name outcome (result_of name outcome)
unfolding result_of message_of
result_of-IsReport name (ok _) = (refl, refl, refl)
result_of-IsReport name (throws (error_object message)) = (refl, refl, refl)
result_of-IsReport name (throws (other_value text)) = (refl, refl, refl)

results-AreReports :
    (transport : Transport) (ps : List (JsString × Delivery))
    → AreReports transport ps (map (λ p. result_of p.0 (transport p.1)) ps)
results-AreReports transport [] = refl
results-AreReports transport (p ∷ ps) =
    (result_of-IsReport p.0 (transport p.1), results-AreReports transport ps)

-- Every channel that has something to send is tried, in the order of the registry, and no other; there
-- is one result for each, in that order, which names the channel and tells whether its own call was
-- answered, and if not, what it threw.
pub notify-planned :
    (transport : Transport) (env : Env) (s : Subscriber) (event : GovernanceEvent)
    → let plan = planned s event (channels env) in
      ((notify transport env s event).0 ≡ map (λ p. p.1) plan)
      × AreReports transport plan (notify transport env s event).1
unfolding notify configured
notify-planned transport env s event =
    let guarded = channels-IsGuarded env s event in
    (
      deliveries_of-planned s event (channels env) guarded,
      subst (AreReports transport (planned s event (channels env)))
          (sym (attempt-planned s event transport (channels env) guarded))
          (results-AreReports transport (planned s event (channels env))),
    )

deliveries_of_some :
    (s : Subscriber) (event : GovernanceEvent) (chs : List Channel)
    → All (IsGuarded s event) chs
    → any (λ ch. ch.is_configured s) chs ≡ true
    → 1 ≤ length (deliveries_of s event (select (λ ch. ch.is_configured s) chs))
unfolding deliveries_of
deliveries_of_some s event [] g h = cc
deliveries_of_some s event (ch ∷ chs) (inl (c, (d, e)), g) h = rw (c, e) (omega arith)
deliveries_of_some s event (ch ∷ chs) (inr (c, e), g) h =
    rw c (deliveries_of_some s event chs g (rw c at h))

-- A subscriber with a channel of its own is sent at least one message, whatever the environment
-- and whatever fails.
pub notify_reaches :
    (transport : Transport) (env : Env) (s : Subscriber) (event : GovernanceEvent)
    → Reachable s
    → 1 ≤ length (notify transport env s event).0
unfolding notify configured
notify_reaches transport env s event h =
    deliveries_of_some s event (channels env) (channels-IsGuarded env s event)
      (any_configured env s h)
