-- ===== src/Notification/Subscriptions/History.antt =====
-- Which subscribers `matchingSubscribers` of notification-service/src/subscriptions.ts selects.
use cosmosvote.Prelude.{
  ◌≡◌, refl, sym, subst, ◌≢◌, ◌⊎◌, inl, inr, Bool, true, not, ◌||◌, List, [], ◌∷◌, ◌++◌, arith,
  JsString, ◌===◌, is_set, All, All-append, All-select, HasDistinct, HasDistinct-select,
  HasDistinct-append_one, ok,
}
use cosmosvote.Notification.Types.{Subscriber}
use cosmosvote.Notification.Subscriptions.{
  absent, Disk, empty_store, parsed, load, save, save_cursor, Options, has_channel, subscriber_of,
  push_subscriber, add_subscriber, without, remove_subscriber, list_subscribers,
}
use cosmosvote.Notification.Subscriptions.Edits.{HasId}

-- Every subscriber has a channel, and no two have one identifier.
abbrev pub Reachable : Subscriber → Type 0
Reachable s =
    (is_set s.email
      || is_set s.webhook_url
      || is_set s.slack_webhook_url
      || is_set s.discord_webhook_url)
    ≡ true

pub record IsSound (d : Disk) : Type 0 where
  pub reachable : All Reachable (list_subscribers d)
  pub distinct : HasDistinct (λ s. s.id) (list_subscribers d)

-- One call, of the service or of the command line. `crypto.randomUUID` gives an identifier that is
-- not in use. The disk may lose the right to write, and get it back.
pub data Step (d : Disk) : Disk → Type 0 where
  adds :
      (opts : Options) (uuid : JsString) {s : Subscriber} {d' : Disk}
      → ¬ HasId uuid (list_subscribers d)
      → add_subscriber opts uuid d ≡ ok (s, d')
      → Step d d'
  removes :
      (id : JsString) {found : Bool} {d' : Disk}
      → remove_subscriber id d ≡ ok (found, d')
      → Step d d'
  moves : (cursor : JsString) {d' : Disk} → save_cursor cursor d ≡ ok d' → Step d d'
  protects : (writable : Bool) → Step d (record d { writable = writable })

pub data Reach (d : Disk) : Disk → Type 0 where
  here : Reach d d
  next : {d' d'' : Disk} → Reach d d' → Step d' d'' → Reach d d''

fresh-All : (uuid : JsString) (xs : List Subscriber) → ¬ HasId uuid xs → All (λ x. x.id ≢ uuid) xs
fresh-All uuid [] h = tt
fresh-All uuid (x ∷ xs) h =
    (λ e. h (x, inl refl, e), fresh-All uuid xs (λ (s, m, e). h (s, inr m, e)))

list_subscribers-add :
    (opts : Options) (uuid : JsString) (d d' : Disk) (s : Subscriber)
    → add_subscriber opts uuid d ≡ ok (s, d')
    → (has_channel opts ≡ true)
      × (list_subscribers d' ≡ list_subscribers d ++ subscriber_of uuid opts ∷ [])
unfolding add_subscriber save push_subscriber list_subscribers load parsed
list_subscribers-add opts uuid d d' s e = (ground arith, ground arith)

list_subscribers-remove :
    (id : JsString) (d d' : Disk) (found : Bool)
    → remove_subscriber id d ≡ ok (found, d')
    → (list_subscribers d' ≡ list_subscribers d)
      ⊎ (list_subscribers d' ≡ without id (list_subscribers d))
unfolding remove_subscriber save list_subscribers load parsed
list_subscribers-remove id d d' found e = ground arith

list_subscribers-save_cursor :
    (cursor : JsString) (d d' : Disk)
    → save_cursor cursor d ≡ ok d'
    → list_subscribers d' ≡ list_subscribers d
unfolding save_cursor save list_subscribers load parsed
list_subscribers-save_cursor cursor d d' e = ground arith

IsSound-of_eq : {d d' : Disk} → list_subscribers d' ≡ list_subscribers d → IsSound d → IsSound d'
IsSound-of_eq e v = record {
  reachable = subst (All Reachable) (sym e) v.reachable;
  distinct = subst (HasDistinct (λ s. s.id)) (sym e) v.distinct;
}

IsSound-add :
    (opts : Options) (uuid : JsString) (d d' : Disk)
    → ¬ HasId uuid (list_subscribers d)
    → has_channel opts ≡ true
    → list_subscribers d' ≡ list_subscribers d ++ subscriber_of uuid opts ∷ []
    → IsSound d
    → IsSound d'
unfolding subscriber_of has_channel
IsSound-add opts uuid d d' fresh c e v = record {
  reachable =
      subst (All Reachable) (sym e)
        (All-append Reachable (list_subscribers d) _ v.reachable (c, tt));
  distinct = subst (HasDistinct (λ s. s.id)) (sym e) (
      HasDistinct-append_one (λ s. s.id) (list_subscribers d) _ v.distinct
        (fresh-All uuid (list_subscribers d) fresh));
}

IsSound-without :
    (id : JsString) (d d' : Disk)
    → list_subscribers d' ≡ without id (list_subscribers d)
    → IsSound d
    → IsSound d'
unfolding without
IsSound-without id d d' e v = record {
  reachable =
      subst (All Reachable) (sym e)
        (All-select Reachable (λ s. not (s.id === id)) (list_subscribers d) v.reachable);
  distinct =
      subst (HasDistinct (λ s. s.id)) (sym e)
        (HasDistinct-select (λ s. s.id) (λ s. not (s.id === id)) (list_subscribers d) v.distinct);
}

Step-IsSound : {d d' : Disk} → Step d d' → IsSound d → IsSound d'
unfolding list_subscribers load
Step-IsSound {d} (adds opts uuid {s} {d'} fresh e) v =
    let (c, l) = list_subscribers-add opts uuid d d' s e in IsSound-add opts uuid d d' fresh c l v
Step-IsSound {d} (removes id {found} {d'} e) v = elim (list_subscribers-remove id d d' found e) [
  | inl l ↦ IsSound-of_eq l v
  | inr l ↦ IsSound-without id d d' l v
]
Step-IsSound {d} (moves cursor {d'} e) v =
    IsSound-of_eq (list_subscribers-save_cursor cursor d d' e) v
Step-IsSound (protects writable) v = record { reachable = v.reachable; distinct = v.distinct }

-- Whatever calls follow one another on a disk whose file is missing, the file lists only
-- subscribers that have a channel, no two of them under one identifier, if each new identifier is
-- not in use when it is given out.
pub Reach-IsSound : {d d' : Disk} → d.content ≡ absent → Reach d d' → IsSound d'
unfolding list_subscribers load parsed empty_store
Reach-IsSound {d} e here = record { reachable = rw (e, parsed) tt; distinct = rw (e, parsed) tt }
Reach-IsSound e (next r st) = Step-IsSound st (Reach-IsSound e r)
