-- ===== src/Frontend/Analytics/Conservation.antt =====
-- What becomes of the events of frontend/src/analytics.ts.
use cosmosvote.Prelude.{
  ℕ, ◌+◌, ◌≡◌, refl, ap, ◌∙◌, inl, inr, Bool, true, false, not, List, [], ◌∷◌, ◌++◌, arith, leb,
  if◌then◌else◌, Bool-cases, length, select, length-append, select-append,
}
use cosmosvote.Frontend.Analytics.{
  AnalyticsEvent, Settings, batch_size, State, load, persist, flush, request_ends, track_event,
  Reach, loaded, tracked, flushed, ended,
}

module _ (p : AnalyticsEvent → Bool) where
  abbrev pub count : List AnalyticsEvent → ℕ
  count xs = length (select p xs)

  count-append : (xs ys : List AnalyticsEvent) → count (xs ++ ys) ≡ count xs + count ys
  count-append xs ys = rw (select-append p xs ys) (length-append (select p xs) (select p ys))

  abbrev pub count_all : List (List AnalyticsEvent) → ℕ
  count_all [] = 0
  count_all (batch ∷ batches) = count batch + count_all batches

  count_all-append :
      (front : List (List AnalyticsEvent)) (batch : List AnalyticsEvent)
      (back : List (List AnalyticsEvent))
      → count_all (front ++ batch ∷ back) ≡ count batch + count_all (front ++ back)
  count_all-append [] batch back = refl
  count_all-append (b ∷ front) batch back = omega (arith, count_all-append front batch back)

  -- The events of a state, wherever they are.
  abbrev pub kept : State → ℕ
  kept s = count s.queue + count_all s.on_the_way + count s.done

  kept-persist : (s : State) → kept (persist s) ≡ kept s
  unfolding persist
  kept-persist s = ground arith

  kept-flush : (settings : Settings) (s : State) → kept (flush settings s) ≡ kept s
  unfolding flush persist
  kept-flush settings s = ground (arith, count-append s.done s.queue)

  kept-push :
      (event : AnalyticsEvent) (s : State)
      → kept (persist (record s { queue = s.queue ++ event ∷ [] })) ≡ kept s + count (event ∷ [])
  kept-push event s = omega (
    arith,
    kept-persist (record s { queue = s.queue ++ event ∷ [] }),
    count-append s.queue (event ∷ []),
  )

  kept-overflow :
      (full : Bool) (settings : Settings) (s : State)
      → kept (if full then flush settings s else s) ≡ kept s
  kept-overflow true settings s = kept-flush settings s
  kept-overflow false settings s = refl

  kept-track_event :
      (settings : Settings) (event : AnalyticsEvent) (s : State)
      → kept (track_event settings event s)
        ≡ kept s + (if settings.enabled then count (event ∷ []) else 0)
  unfolding track_event
  kept-track_event settings event s = elim (Bool-cases settings.enabled) [
    | inl e ↦
        let saved = persist (record s { queue = s.queue ++ event ∷ [] }) in
        rw e
          (kept-overflow (leb batch_size (length saved.queue)) settings saved ∙ kept-push event s)
    | inr e ↦ rw e (omega arith)
  ]

  kept-request_ends :
      (answered : Bool) (front : List (List AnalyticsEvent)) (batch : List AnalyticsEvent)
      (back : List (List AnalyticsEvent)) (s : State)
      → s.on_the_way ≡ front ++ batch ∷ back
      → kept (request_ends answered front batch back s) ≡ kept s
  unfolding request_ends
  kept-request_ends true front batch back s e =
      omega (arith, count-append s.done batch, count_all-append front batch back, ap count_all e)
  kept-request_ends false front batch back s e = omega (
    arith,
    kept-persist (record s { on_the_way = front ++ back; queue = batch ++ s.queue }),
    count-append batch s.queue,
    count_all-append front batch back,
    ap count_all e,
  )

kept-load :
    (p : AnalyticsEvent → Bool) (works : Bool) (stored : List AnalyticsEvent)
    → kept p (load works stored) ≡ (if works then count p stored else 0) + 0
unfolding load
kept-load p true stored = omega arith
kept-load p false stored = omega arith

one_more :
    (p : AnalyticsEvent → Bool) (enabled : Bool) (event : AnalyticsEvent)
    (events : List AnalyticsEvent)
    → count p (if enabled then event ∷ events else events)
      ≡ count p events + (if enabled then count p (event ∷ []) else 0)
one_more p true event events = ground arith
one_more p false event events = omega arith

-- After any events, flushes and requests, the events of each kind that are on the queue, on their way
-- and done with are together as many as the storage held when the page was loaded and were
-- tracked since.
pub Reach-kept :
    {settings : Settings} {works : Bool} {stored events : List AnalyticsEvent} {s : State}
    (p : AnalyticsEvent → Bool)
    → Reach settings works stored events s
    → kept p s ≡ (if works then count p stored else 0) + count p events
Reach-kept {works} {stored} p (loaded e) = rw e (kept-load p works stored)
Reach-kept {settings} p (tracked {events} {s} event r e) = rw e (
    omega (
      arith,
      kept-track_event p settings event s,
      Reach-kept p r,
      one_more p settings.enabled event events,
    ))
Reach-kept {settings} p (flushed {events} {s} r e) = rw e (kept-flush p settings s ∙ Reach-kept p r)
Reach-kept p (ended {events} {s} answered front batch back r way e) =
    rw e (kept-request_ends p answered front batch back s way ∙ Reach-kept p r)

abbrev pub IsStored : State → Type 0
IsStored s = (s.storage_works ≡ true) × (s.stored ≡ s.queue)

persist-IsStored : (s : State) → s.storage_works ≡ true → IsStored (persist s)
unfolding persist
persist-IsStored s e = (ground arith, ground arith)

flush-IsStored : (settings : Settings) (s : State) → IsStored s → IsStored (flush settings s)
unfolding flush
flush-IsStored settings s h = ground (arith, h, persist-IsStored (record s { queue = [] }) h.0)

track_event-IsStored :
    (settings : Settings) (event : AnalyticsEvent) (s : State)
    → IsStored s
    → IsStored (track_event settings event s)
unfolding track_event
track_event-IsStored settings event s h =
    let pushed = record s { queue = s.queue ++ event ∷ [] } in
    let stored = persist-IsStored pushed h.0 in
    either (not settings.enabled) (leb batch_size (length (persist pushed).queue)) s
      (flush settings (persist pushed)) (persist pushed) h
      (flush-IsStored settings (persist pushed) stored) stored
  where
    either :
        (a b : Bool) (x y z : State)
        → IsStored x
        → IsStored y
        → IsStored z
        → IsStored (if a then x else (if b then y else z))
    either true b x y z h k l = h
    either false true x y z h k l = k
    either false false x y z h k l = l

request_ends-IsStored :
    (answered : Bool) (front : List (List AnalyticsEvent)) (batch : List AnalyticsEvent)
    (back : List (List AnalyticsEvent)) (s : State)
    → IsStored s
    → IsStored (request_ends answered front batch back s)
unfolding request_ends
request_ends-IsStored true front batch back s h = h
request_ends-IsStored false front batch back s h =
    persist-IsStored (record s { on_the_way = front ++ back; queue = batch ++ s.queue }) h.0

-- Where the storage works, it holds the queue at all times.
pub Reach-IsStored :
    {settings : Settings} {stored events : List AnalyticsEvent} {s : State}
    → Reach settings true stored events s
    → (s.storage_works ≡ true) × (s.stored ≡ s.queue)
unfolding load
Reach-IsStored (loaded e) = rw e (refl, refl)
Reach-IsStored {settings} (tracked {events} {s} event r e) =
    rw e (track_event-IsStored settings event s (Reach-IsStored r))
Reach-IsStored {settings} (flushed {events} {s} r e) =
    rw e (flush-IsStored settings s (Reach-IsStored r))
Reach-IsStored (ended {events} {s} answered front batch back r way e) =
    rw e (request_ends-IsStored answered front batch back s (Reach-IsStored r))
