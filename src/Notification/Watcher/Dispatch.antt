-- ===== src/Notification/Watcher/Dispatch.antt =====
-- Whom `processEvents` and `poll` of notification-service/src/watcher.ts notify.
use cosmosvote.Prelude.{
  ◌≡◌, refl, subst, ◌↔◌, inl, inr, List, [], ◌∷◌, map, In, In-append, In-append_left,
  In-append_right, In-map, map-In,
}
use cosmosvote.Notification.Types.{GovernanceEvent, Subscriber}
use cosmosvote.Notification.Subscriptions.{Disk, list_subscribers, matching_subscribers}
use cosmosvote.Notification.Channels.{Env}
use cosmosvote.Notification.Notifier.{Transport}
use cosmosvote.Notification.Watcher.{Notified, notify_one, process_events}
use cosmosvote.Notification.Subscriptions.Filter.{Asked, matching_subscribers_iff}

module _ (transport : Transport) (env : Env) where
  -- A notification for an event of the page and a subscriber on file who asked for that event.
  abbrev pub IsDue : List GovernanceEvent → Disk → Notified → Type 0
  IsDue events d n =
      (event : GovernanceEvent) × (s : Subscriber) × In event events
      × In s (list_subscribers d)
      × Asked event.type event.proposal_id s
      × (n ≡ notify_one transport env event s)

  process_events-IsDue :
      (events : List GovernanceEvent) (d : Disk) (n : Notified)
      → In n (process_events transport env events d)
      → IsDue events d n
  unfolding process_events
  process_events-IsDue [] d n m = absurd m
  process_events-IsDue (event ∷ events) d n m =
      elim (In-append n (map (notify_one transport env event) subs)
        (process_events transport env events d) m) [
          | inl h ↦
              let (s, k, e) = In-map (notify_one transport env event) n subs h in
              let (listed, asked) =
                (matching_subscribers_iff event.type event.proposal_id d s).0 k in
              (event, s, inl refl, listed, asked, e)
          | inr h ↦
              let (event', s, k, listed, asked, e) = process_events-IsDue events d n h in
              (event', s, inr k, listed, asked, e)
        ]
    where
      subs : List Subscriber
      subs = matching_subscribers event.type event.proposal_id d

  IsDue-process_events :
      (events : List GovernanceEvent) (d : Disk) (n : Notified)
      → IsDue events d n
      → In n (process_events transport env events d)
  unfolding process_events
  IsDue-process_events [] d n (event, s, k, listed, asked, e) = absurd k
  IsDue-process_events (first ∷ events) d n (event, s, inl k, listed, asked, e) =
      In-append_left n _ (process_events transport env events d) (
        rw (e, k)
          (map-In (notify_one transport env first) s _ (
            (matching_subscribers_iff first.type first.proposal_id d s).1
              (listed, subst (λ ev. Asked ev.type ev.proposal_id s) k asked))))
  IsDue-process_events (first ∷ events) d n (event, s, inr k, listed, asked, e) =
      In-append_right n _ (process_events transport env events d)
        (IsDue-process_events events d n (event, s, k, listed, asked, e))

  -- The notifications made for a page are exactly those of one of its events to a subscriber on
  -- file who asked for that event's type and proposal.
  pub process_events_iff :
      (events : List GovernanceEvent) (d : Disk) (n : Notified)
      → In n (process_events transport env events d) ↔ IsDue events d n
  process_events_iff events d n = (process_events-IsDue events d n, IsDue-process_events events d n)
