-- ===== src/Scripts/AdminMonitor/Catchup.antt =====
-- The polls of scripts/admin_monitor.js against a log of records, however they overlap.
use cosmosvote.Prelude.{
  asked_for, last_of, last_of-append, serve, served, ◌≡◌, refl, sym, ap, ◌∙◌, subst, ◌≢◌, inl, inr,
  Option, none, some, List, [], ◌∷◌, ◌++◌, append_assoc, append-nil, JsString, js, cons_some, take,
  drop, take-append-drop, In, All, In-append, In-append_left, In-append_right, HasDistinct, choose,
  Result, ok, throws,
}
use cosmosvote.Scripts.AdminMonitor.{
  Record, Alert, alert_of, scan, poll_end, Monitor, start_monitor, begin_poll, end_poll, Reach,
  started, begun, answered, failed,
}

pub scan_lem :
    (rs : List Record) (cursor : JsString)
    → scan rs cursor ≡ (last_of (λ r. r.id) cursor rs, choose alert_of rs)
unfolding scan
scan_lem [] cursor = refl
scan_lem (r ∷ rs) cursor = rw (scan_lem rs r.id) refl

In-choose :
    (a : Alert) (rs : List Record)
    → In a (choose alert_of rs)
    → (r : Record) × In r rs × (alert_of r ≡ some a)
In-choose a [] m = absurd m
In-choose a (r ∷ rs) m = by_alert (alert_of r) refl m (In-choose a rs)
  where
    by_alert :
        (o : Option Alert)
        → alert_of r ≡ o
        → In a (cons_some o (choose alert_of rs))
        → (In a (choose alert_of rs) → (q : Record) × In q rs × (alert_of q ≡ some a))
        → (q : Record) × In q (r ∷ rs) × (alert_of q ≡ some a)
    by_alert none e n later = let (q, k, h) = later n in (q, inr k, h)
    by_alert (some b) e (inl same) later = (r, inl refl, e ∙ ap some (sym same))
    by_alert (some b) e (inr n) later = let (q, k, h) = later n in (q, inr k, h)

choose-In :
    (a : Alert) (rs : List Record) (r : Record)
    → In r rs
    → alert_of r ≡ some a
    → In a (choose alert_of rs)
choose-In a [] r m e = absurd m
choose-In a (q ∷ rs) r (inl same) e = rw (sym (ap alert_of same) ∙ e) (inl refl)
choose-In a (q ∷ rs) r (inr m) e = further (alert_of q) (choose-In a rs r m e)
  where
    further :
        (o : Option Alert) → In a (choose alert_of rs) → In a (cons_some o (choose alert_of rs))
    further none n = n
    further (some b) n = inr n

module _ (log : List Record) where
  -- A front of the log that has been alerted to.
  abbrev pub IsAlerted : List Alert → List Record → Type 0
  IsAlerted alerts seen = (r : Record) → In r seen → (a : Alert) → alert_of r ≡ some a → In a alerts

  -- The place of a cursor in the log: all before it has been alerted to.
  abbrev pub IsPlaced : List Alert → JsString → Type 0
  IsPlaced alerts cursor =
      (seen : List Record) × (rest : List Record) × (log ≡ seen ++ rest)
      × (cursor ≡ last_of (λ r. r.id) (js "now") seen)
      × IsAlerted alerts seen

  abbrev IsFounded : List Alert → Type 0
  IsFounded alerts = (a : Alert) → In a alerts → (r : Record) × In r log × (alert_of r ≡ some a)

  abbrev IsAsked : List Alert → Option JsString → Type 0
  IsAsked alerts q = (c : JsString) × (q ≡ asked_for c) × IsPlaced alerts c

  abbrev IsSound : Monitor → Type 0
  IsSound m =
      IsPlaced m.alerts m.cursor
      × ((q : Option JsString) → In q m.asked → IsAsked m.alerts q)
      × IsFounded m.alerts

  IsPlaced-more :
      (alerts more : List Alert) (cursor : JsString)
      → IsPlaced alerts cursor
      → IsPlaced (alerts ++ more) cursor
  IsPlaced-more alerts more cursor (seen, rest, e, c, h) =
      (seen, rest, e, c, λ r m a x. In-append_left a alerts more (h r m a x))

  others :
      (q : Option JsString) (front back : List (Option JsString)) (cursor : Option JsString)
      → In q (front ++ back)
      → In q (front ++ cursor ∷ back)
  others q front back cursor m = elim (In-append q front back m) [
    | inl k ↦ In-append_left q front (cursor ∷ back) k
    | inr k ↦ In-append_right q front (cursor ∷ back) (inr k)
  ]

  module _ (distinct : HasDistinct (λ r. r.id) log) (named : All (λ r. r.id ≢ js "now") log) where
    page-IsPlaced :
        (page seen rest : List Record) (alerts : List Alert) (cursor : JsString)
        → log ≡ seen ++ page ++ rest
        → IsAlerted alerts seen
        → IsPlaced alerts cursor
        → IsPlaced (alerts ++ choose alert_of page) (last_of (λ r. r.id) cursor page)
    page-IsPlaced [] seen rest alerts cursor e h k = IsPlaced-more alerts [] cursor k
    page-IsPlaced (p ∷ page) seen rest alerts cursor e h k = (
      seen ++ p ∷ page,
      rest,
      e,
      sym (last_of-append (λ r. r.id) (js "now") seen (p ∷ page)),
      λ r m a x. elim (In-append r seen (p ∷ page) m) [
        | inl n ↦ In-append_left a alerts _ (h r n a x)
        | inr n ↦ In-append_right a alerts _ (choose-In a (p ∷ page) r n x)
      ],
    )

    page-IsFounded :
        (page seen rest : List Record) (alerts : List Alert)
        → log ≡ seen ++ page ++ rest
        → IsFounded alerts
        → IsFounded (alerts ++ choose alert_of page)
    page-IsFounded page seen rest alerts e h a m =
        elim (In-append a alerts (choose alert_of page) m) [
          | inl n ↦ h a n
          | inr n ↦
              let (r, k, x) = In-choose a page n in
              (
                r,
                subst (In r) (sym e)
                    (In-append_left r (seen ++ page) rest (In-append_right r seen page k)),
                x,
              )
        ]

    answered-IsSound :
        (front back : List (Option JsString)) (cursor : Option JsString) (l : Monitor)
        → l.asked ≡ front ++ cursor ∷ back
        → IsSound l
        → IsSound (end_poll (serve (λ r. r.id) log cursor) front back l)
    unfolding end_poll poll_end
    answered-IsSound front back cursor l way (placed, asked, founded) =
        let (c, same, (seen, rest, e, at_end, alerted)) =
          asked cursor (
            subst (In cursor) (sym way)
              (In-append_right cursor front (cursor ∷ back) (inl refl))) in
        let page = take 50 rest in
        let reply : ◌≡◌ {A = Result JsString (List Record)} (serve (λ r. r.id) log cursor)
            (ok page) =
          ap (serve (λ r. r.id) log) (same ∙ ap asked_for at_end)
          ∙ served (λ r. r.id) log distinct named seen rest e in
        let whole : log ≡ seen ++ page ++ drop 50 rest =
          e ∙ rw (append_assoc, take-append-drop 50 rest) refl in
        rw (reply, scan_lem page l.cursor)
          (
            page-IsPlaced page seen (drop 50 rest) l.alerts l.cursor whole alerted placed,
            λ q m.
                let (d, x, y) = asked q (subst (In q) (sym way) (others q front back cursor m)) in
                (d, x, IsPlaced-more l.alerts (choose alert_of page) d y),
            page-IsFounded page seen (drop 50 rest) l.alerts whole founded,
          )

    failed-IsSound :
        (front back : List (Option JsString)) (cursor : Option JsString) (e : JsString)
        (l : Monitor)
        → l.asked ≡ front ++ cursor ∷ back
        → IsSound l
        → IsSound (end_poll (throws e) front back l)
    unfolding end_poll poll_end
    failed-IsSound front back cursor e l way (placed, asked, founded) =
        rw (append-nil l.alerts)
          (placed, λ q m. asked q (subst (In q) (sym way) (others q front back cursor m)), founded)

    begun-IsSound : (l : Monitor) → IsSound l → IsSound (begin_poll l)
    unfolding begin_poll
    begun-IsSound l (placed, asked, founded) = (
      placed,
      λ q m. elim (In-append q l.asked (asked_for l.cursor ∷ []) m) [
        | inl k ↦ asked q k
        | inr k ↦ elim k [ inl same ↦ (l.cursor, same, placed) | inr x ↦ absurd x ]
      ],
      founded,
    )

    pub Reach-IsSound : {m : Monitor} → Reach log m → IsSound m
    unfolding start_monitor
    Reach-IsSound (started e) =
        rw e (([], log, refl, refl, λ r k a x. absurd k), λ q k. absurd k, λ a k. absurd k)
    Reach-IsSound (begun {l} r e) = rw e (begun-IsSound l (Reach-IsSound r))
    Reach-IsSound (answered {l} front back cursor r way e) =
        rw e (answered-IsSound front back cursor l way (Reach-IsSound r))
    Reach-IsSound (failed {l} front back cursor x r way e) =
        rw e (failed-IsSound front back cursor x l way (Reach-IsSound r))
