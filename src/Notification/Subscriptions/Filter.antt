-- ===== src/Notification/Subscriptions/Filter.antt =====
-- Which subscribers `matchingSubscribers` of notification-service/src/subscriptions.ts selects.
use cosmosvote.Prelude.{
  ◌≡◌, subst, ◌↔◌, ◌⊎◌, Option, true, false, List, arith, JsString, ◌===◌, ===_iff, ===_refl,
  is_set, same_option_iff, any, In, In-select, select-In, any_iff,
}
use cosmosvote.Notification.Types.{Subscriber, GovernanceEventType}
use cosmosvote.Notification.Subscriptions.{
  Disk, load, list_subscribers, wants, matching_subscribers,
}

module _ (event_type : GovernanceEventType) (proposal_id : Option JsString) where
  -- What a subscriber has asked for: the event's type, and its proposal or all proposals.
  abbrev pub Asked : Subscriber → Type 0
  Asked s =
      In event_type s.events × ((is_set s.proposal_id ≡ false) ⊎ (s.proposal_id ≡ proposal_id))

  listed_iff :
      (events : List JsString) → (any (λ e. e === event_type) events ≡ true) ↔ In event_type events
  listed_iff events = (forth, back)
    where
      forth : any (λ e. e === event_type) events ≡ true → In event_type events
      forth h =
          let (a, m, e) = (any_iff (λ e. e === event_type) events).0 h in
          subst (λ t. In t events) ((===_iff a event_type).0 e) m

      back : In event_type events → any (λ e. e === event_type) events ≡ true
      back m = (any_iff (λ e. e === event_type) events).1 (event_type, m, ===_refl event_type)

  wants_iff : (s : Subscriber) → (wants event_type proposal_id s ≡ true) ↔ Asked s
  unfolding wants
  wants_iff s = ground (arith, listed_iff s.events, same_option_iff s.proposal_id proposal_id)

  -- A subscriber is selected for an event exactly when the file lists it and it has asked for the
  -- event's type and for its proposal or for all.
  pub matching_subscribers_iff :
      (d : Disk) (s : Subscriber)
      → In s (matching_subscribers event_type proposal_id d) ↔ (In s (list_subscribers d) × Asked s)
  unfolding matching_subscribers list_subscribers
  matching_subscribers_iff d s = (forth, λ (m, asked). select-In _ s _ m ((wants_iff s).1 asked))
    where
      forth :
          In s (matching_subscribers event_type proposal_id d) → In s (list_subscribers d) × Asked s
      forth m =
          let (listed, w) = In-select (wants event_type proposal_id) s (load d).subscribers m in
          (listed, (wants_iff s).0 w)
