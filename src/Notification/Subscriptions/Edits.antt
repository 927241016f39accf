-- ===== src/Notification/Subscriptions/Edits.antt =====
-- Which subscribers `matchingSubscribers` of notification-service/src/subscriptions.ts selects.
use cosmosvote.Prelude.{
  ◌≡◌, refl, sym, ap, ◌∙◌, subst, ◌↔◌, ◌≢◌, ◌⊎◌, inl, inr, true, false, not, ◌||◌, List, [], ◌∷◌,
  ◌++◌, append-nil, arith, JsString, ◌===◌, ===_iff, ===_refl, is_set, ◌==◌, ==_iff, Bool-cases,
  length, any, select-append, In, In-select, select-In, select_all, select_pass, any_iff,
  In-append_right, ok, throws,
}
use cosmosvote.Notification.Types.{Subscriber}
use cosmosvote.Notification.Subscriptions.{
  holds, Disk, no_channel, parsed, load, save, get_store, Options, has_channel, subscriber_of,
  push_subscriber, add_subscriber, without, remove_subscriber, list_subscribers,
}

pub has_channel_lem :
    (opts : Options)
    → has_channel opts ≡ (
        is_set opts.email
        || is_set opts.webhook_url
        || is_set opts.slack_webhook_url
        || is_set opts.discord_webhook_url)
unfolding has_channel
has_channel_lem opts = refl

-- A subscriber is added exactly when it has a channel: it is then the last of the list, nothing else
-- of the file changes, and without one the call throws and leaves the disk alone.
pub add_subscriber_outcome :
    (opts : Options) (uuid : JsString) (d : Disk)
    → d.writable ≡ true
    → ((has_channel opts ≡ false) × (add_subscriber opts uuid d ≡ throws no_channel))
      ⊎ ((has_channel opts ≡ true)
          × ((d' : Disk) × (add_subscriber opts uuid d ≡ ok (subscriber_of uuid opts, d'))
              × (list_subscribers d' ≡ list_subscribers d ++ subscriber_of uuid opts ∷ [])
              × ((get_store d').cursor ≡ (get_store d).cursor)))
unfolding add_subscriber save push_subscriber list_subscribers get_store load parsed
add_subscriber_outcome opts uuid d w = elim (Bool-cases (has_channel opts)) [
  | inl e ↦ inr (
    e,
    (
      record d { content = holds (push_subscriber (subscriber_of uuid opts) (load d)) },
      ground arith,
      ground arith,
      ground arith,
    ),
  )
  | inr e ↦ inl (e, ground arith)
]

abbrev pub HasId : JsString → List Subscriber → Type 0
HasId id subscribers = (s : Subscriber) × In s subscribers × (s.id ≡ id)

without-In :
    (id : JsString) (s : Subscriber) (xs : List Subscriber)
    → In s (without id xs)
    → In s xs × (s.id ≢ id)
unfolding without
without-In id s xs m =
    let (listed, e) = In-select (λ x. not (x.id === id)) s xs m in
    (listed, ground (arith, ===_iff s.id id))

In-without :
    (id : JsString) (s : Subscriber) (xs : List Subscriber)
    → In s xs
    → s.id ≢ id
    → In s (without id xs)
unfolding without
In-without id s xs m h = select-In (λ x. not (x.id === id)) s xs m (ground (arith, ===_iff s.id id))

-- The others are kept: the list is as it was if nobody has the identifier.
without_fresh : (id : JsString) (xs : List Subscriber) → ¬ HasId id xs → without id xs ≡ xs
unfolding without
without_fresh id xs h =
    select_pass (λ x. not (x.id === id)) xs
      (λ s m. ground (arith, ===_iff s.id id, λ (e : s.id ≡ id). h (s, m, e)))

shorter_iff :
    (id : JsString) (xs : List Subscriber) → (length (without id xs) ≢ length xs) ↔ HasId id xs
unfolding without
shorter_iff id xs = (forth, back)
  where
    forth : length (without id xs) ≢ length xs → HasId id xs
    forth h = elim (Bool-cases (any (λ x. x.id === id) xs)) [
      | inl e ↦ let (s, m, q) = (any_iff _ xs).0 e in (s, m, (===_iff s.id id).0 q)
      | inr e ↦ absurd (
          h (
            ap length (
              without_fresh id xs (λ (s, m, q).
                cc ((any_iff (λ x. x.id === id) xs).1 (s, m, (===_iff s.id id).1 q))))))
    ]

    back : HasId id xs → length (without id xs) ≢ length xs
    back (s, m, e) h =
        (without-In id s xs (subst (In s) (sym (select_all (λ x. not (x.id === id)) xs h)) m)).1 e

-- The identifier is missing and nothing changes, or it is there and is taken out.
abbrev pub RemoveOutcome : JsString → Disk → Type 0
RemoveOutcome id d =
    (¬ HasId id (list_subscribers d) × (remove_subscriber id d ≡ ok (false, d)))
    ⊎ (HasId id (list_subscribers d)
        × ((d' : Disk) × (remove_subscriber id d ≡ ok (true, d'))
            × (list_subscribers d' ≡ without id (list_subscribers d))
            × ¬ HasId id (list_subscribers d')
            × ((get_store d').cursor ≡ (get_store d).cursor)))

-- On a disk that can be written, removal answers true exactly when the identifier is in the list;
-- then the list loses those who have it, keeps the order of the others and the cursor stays, and
-- otherwise the disk is as it was.
pub remove_subscriber_outcome : (id : JsString) (d : Disk) → d.writable ≡ true → RemoveOutcome id d
unfolding remove_subscriber list_subscribers get_store save load parsed
remove_subscriber_outcome id d w = elim (Bool-cases (length rest == length (load d).subscribers)) [
  | inl e ↦ inl (λ h. (shorter_iff id (load d).subscribers).1 h ((==_iff _ _).0 e), rw e)
  | inr e ↦ inr (
    (shorter_iff id (load d).subscribers).0 (λ q. cc ((==_iff _ _).1 q)),
    (
      record d { content = holds (record (load d) { subscribers = rest }) },
      ground arith,
      refl,
      λ (s, m, q). (without-In id s (load d).subscribers m).1 q,
      refl,
    ),
  )
]
  where
    rest : List Subscriber
    rest = without id (load d).subscribers

without-append_self :
    (s : Subscriber) (xs : List Subscriber) → ¬ HasId s.id xs → without s.id (xs ++ s ∷ []) ≡ xs
unfolding without
without-append_self s xs fresh =
    select-append (λ x. not (x.id === s.id)) xs (s ∷ [])
    ∙ rw (without_fresh s.id xs fresh, ===_refl s.id) (append-nil xs)

-- The two calls in a row, with what they leave.
abbrev pub AddThenRemove : Options → JsString → Disk → Type 0
AddThenRemove opts uuid d =
    (s : Subscriber) × (d' d'' : Disk) × (add_subscriber opts uuid d ≡ ok (s, d'))
    × (remove_subscriber s.id d' ≡ ok (true, d''))
    × (list_subscribers d'' ≡ list_subscribers d)
    × ((get_store d'').cursor ≡ (get_store d).cursor)

-- A subscriber with a channel, added under a fresh identifier to a disk that can be written and
-- removed again, leaves the list and the cursor as they were.
pub remove_subscriber-add_subscriber :
    (opts : Options) (uuid : JsString) (d : Disk)
    → d.writable ≡ true
    → has_channel opts ≡ true
    → ¬ HasId uuid (list_subscribers d)
    → AddThenRemove opts uuid d
unfolding add_subscriber save push_subscriber list_subscribers get_store load parsed subscriber_of
remove_subscriber-add_subscriber opts uuid d w c fresh =
    removed (remove_subscriber_outcome uuid added w)
  where
    s : Subscriber
    s = subscriber_of uuid opts

    added : Disk
    added = record d { content = holds (push_subscriber s (load d)) }

    removed : RemoveOutcome uuid added → AddThenRemove opts uuid d
    removed (inl (missing, e)) =
        absurd (missing (s, In-append_right s (load d).subscribers (s ∷ []) (inl refl), refl))
    removed (inr (_, (d'', e, l, _, k))) =
        (s, added, d'', ground arith, e, l ∙ without-append_self s (load d).subscribers fresh, k)
