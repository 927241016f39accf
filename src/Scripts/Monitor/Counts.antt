-- ===== src/Scripts/Monitor/Counts.antt =====
-- The alerts of scripts/monitor.js over a whole batch.
use cosmosvote.Prelude.{
  pos, ℕ, suc, ◌+◌, ◌-◌, ◌≡◌, refl, ap, ◌∙◌, inl, inr, none, some, Bool, true, false, ◌&&◌, List,
  [], ◌∷◌, arith, js, if◌then◌else◌, Bool-cases,
}
use cosmosvote.Scripts.Monitor.{
  Thresholds, Event, ◌then◌, reaches, includes, is_admin_change, is_vote, event_run, detect_from,
  detect_anomalies, count_if,
}
use cosmosvote.Scripts.Monitor.Alerts.{
  Kind, is_kind, count, count-append, then-parts, is_about, is_large, bit, change_share,
  count-event,
}

module _ (th : Thresholds) where
  burst_share : Kind → ℕ → ℕ
  burst_share Kind.burst votes = bit (reaches votes th.rapid_vote_burst)
  burst_share _ votes = 0

  count-burst :
      (k : Kind) (c v : ℕ) → count (is_kind k) (detect_from th c v []).entries ≡ burst_share k v
  unfolding detect_from is_kind burst_share
  count-burst k c v = ground arith

  -- The alerts of the loop, event by event.
  total : Kind → ℕ → ℕ → List Event → ℕ
  total k c v [] = burst_share k v
  total k c v (ev ∷ evs) =
      let next = count_if (is_admin_change ev) c in
      bit (is_about th k ev)
      + change_share k (is_admin_change ev && reaches next th.admin_change_count)
      + total k next (count_if (is_vote ev) v) evs

  count-total :
      (k : Kind) (c v : ℕ) (evs : List Event)
      → (detect_from th c v evs).thrown ≡ none
      → count (is_kind k) (detect_from th c v evs).entries ≡ total k c v evs
  unfolding detect_from total
  count-total k c v [] h = count-burst k c v
  count-total k c v (ev ∷ evs) h =
      let next = count_if (is_admin_change ev) c in
      let first = event_run th next ev in
      let rest = detect_from th next (count_if (is_vote ev) v) evs in
      let (calm, quiet, parts) = then-parts first rest h in
      ap (count (is_kind k)) parts
      ∙ count-append (is_kind k) first.entries rest.entries
      ∙ omega (
        arith,
        count-event th k next ev calm,
        count-total k next (count_if (is_vote ev) v) evs quiet,
      )

  changes_step :
      (m c : ℕ) (b : Bool)
      → th.admin_change_count ≡ some (pos (suc m))
      → bit (b && reaches (count_if b c) th.admin_change_count) + (c - m) ≡ count_if b c - m
  changes_step m c b e = rw e (ground arith)

  total-changes :
      (m c v : ℕ) (evs : List Event)
      → th.admin_change_count ≡ some (pos (suc m))
      → total Kind.changes c v evs + (c - m) ≡ c + count is_admin_change evs - m
  unfolding total burst_share is_about
  total-changes m c v [] e = omega arith
  total-changes m c v (ev ∷ evs) e = elim (Bool-cases (is_admin_change ev)) [
    | inl b ↦ rw b (
        omega
          (arith, changes_step m c true e, total-changes m (c + 1) (count_if (is_vote ev) v) evs e))
    | inr b ↦
        rw b (
          omega
            (arith, changes_step m c false e, total-changes m c (count_if (is_vote ev) v) evs e))
  ]

  total-burst :
      (c v : ℕ) (evs : List Event)
      → total Kind.burst c v evs ≡ bit (reaches (v + count is_vote evs) th.rapid_vote_burst)
  unfolding total burst_share is_about
  total-burst c v [] = ap (λ n. bit (reaches n th.rapid_vote_burst)) (omega arith)
  total-burst c v (ev ∷ evs) =
      no_share (total Kind.burst (count_if (is_admin_change ev) c) (count_if (is_vote ev) v) evs)
      ∙ total-burst (count_if (is_admin_change ev) c) (count_if (is_vote ev) v) evs
      ∙ ap (λ n. bit (reaches n th.rapid_vote_burst)) (votes_step v ev evs)
    where
      no_share : (n : ℕ) → 0 + 0 + n ≡ n
      no_share n = omega arith

      votes_step :
          (v : ℕ) (ev : Event) (evs : List Event)
          → count_if (is_vote ev) v + count is_vote evs ≡ v + count is_vote (ev ∷ evs)
      votes_step v ev evs = ground arith

  abbrev is_single : Kind → Bool
  is_single Kind.changes = false
  is_single Kind.burst = false
  is_single _ = true

  total-single :
      (k : Kind)
      → is_single k ≡ true
      → (c v : ℕ) (evs : List Event) → total k c v evs ≡ count (is_about th k) evs
  unfolding total burst_share
  total-single k e c v [] = ground arith
  total-single k e c v (ev ∷ evs) =
      let next = count_if (is_admin_change ev) c in
      ground (
        arith,
        no_change_share k e (is_admin_change ev && reaches next th.admin_change_count),
        total-single k e next (count_if (is_vote ev) v) evs,
      )
    where
      no_change_share : (k : Kind) → is_single k ≡ true → (b : Bool) → change_share k b ≡ 0
      no_change_share k e b = ground arith

  pub alerts : Kind → List Event → ℕ
  alerts k events = count (is_kind k) (detect_anomalies th events).entries

  -- Where a batch is examined to its end and the threshold on admin changes is a positive number, every
  -- admin change of the batch from that number on is alerted to, whether or not other events stand between
  -- them, a burst of votes once if the votes of the batch reach its threshold, and each large transfer,
  -- cancellation, pause and minting once.
  pub detect_anomalies_counts :
      (m : ℕ) (events : List Event)
      → th.admin_change_count ≡ some (pos (suc m))
      → (detect_anomalies th events).thrown ≡ none
      → (alerts Kind.changes events ≡ count is_admin_change events - m)
        × (alerts Kind.burst events
            ≡ (if reaches (count is_vote events) th.rapid_vote_burst then 1 else 0))
        × (alerts Kind.large events ≡ count (is_large th) events)
        × (alerts Kind.cancelled events
            ≡ count (λ ev. includes ev.topics (js "proposal_cancelled")) events)
        × (alerts Kind.paused events
            ≡ count (λ ev. includes ev.topics (js "contract_paused")) events)
        × (alerts Kind.minted events ≡ count (λ ev. includes ev.topics (js "mint")) events)
  unfolding alerts detect_anomalies is_about
  detect_anomalies_counts m events e h = (
    omega (arith, count-total Kind.changes 0 0 events h, total-changes m 0 0 events e),
    count-total Kind.burst 0 0 events h
        ∙ total-burst 0 0 events
        ∙ ap (λ n. bit (reaches n th.rapid_vote_burst)) (omega arith),
    count-total Kind.large 0 0 events h ∙ total-single Kind.large refl 0 0 events,
    count-total Kind.cancelled 0 0 events h ∙ total-single Kind.cancelled refl 0 0 events,
    count-total Kind.paused 0 0 events h ∙ total-single Kind.paused refl 0 0 events,
    count-total Kind.minted 0 0 events h ∙ total-single Kind.minted refl 0 0 events,
  )
