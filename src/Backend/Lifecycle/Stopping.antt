-- ===== src/Backend/Lifecycle/Stopping.antt =====
-- What a stopped service still does, of backend/src/notificationService.ts.
use cosmosvote.Prelude.{
  ℕ, zero, suc, ◌+◌, ◌*◌, ◌≤◌, ◌<◌, ◌≡◌, refl, ap, subst, inl, false, List, [], ◌∷◌, arith, length,
}
use cosmosvote.Backend.Lifecycle.{
  Loop, tick, stop, tick_done, fire, Runs, finishes, fires, RunsFor, rest, more,
}
use cosmosvote.Backend.Lifecycle.Chains.{length-clear_lt}

-- Each tick in flight has two steps to go, to its timer and past it.
abbrev pub steps_left : Loop → ℕ
steps_left s = 2 * s.in_flight + length s.pending

settles :
    {s t : Loop}
    → s.running ≡ false
    → Runs s t
    → (t.running ≡ false) × (steps_left t < steps_left s) × (t.in_flight ≤ s.in_flight)
unfolding tick_done fire tick
settles down (finishes busy e) = (rw e down, rw e (omega arith), rw e (omega arith))
settles {s} down (fires id m e) = (
  rw (e, down) refl,
  rw (e, down) (omega (arith, length-clear_lt id s.pending m)),
  rw (e, down) (omega arith),
)

settle_for :
    {k : ℕ} {s t : Loop}
    → RunsFor k s t
    → s.running ≡ false
    → (t.running ≡ false) × (k + steps_left t ≤ steps_left s) × (t.in_flight ≤ s.in_flight)
settle_for {s} (rest e) down =
    subst
      (λ u. (u.running ≡ false) × (0 + steps_left u ≤ steps_left s) × (u.in_flight ≤ s.in_flight)) e
      (down, omega arith, omega arith)
settle_for (more st r) down =
    let (down', less, fewer) = settles down st in
    let (stays, bound, few) = settle_for r down' in (stays, omega arith, omega arith)

-- After `stop` no new tick begins, and until the next `start` there are at most two steps for each tick
-- in flight and one for each timer.
pub stop-settles :
    {k : ℕ} (s : Loop) {t : Loop}
    → RunsFor k (stop s) t
    → (t.running ≡ false) × (k + steps_left t ≤ steps_left (stop s)) × (t.in_flight ≤ s.in_flight)
unfolding stop
stop-settles s r = settle_for r refl

-- A service with steps left can take one.
pub progress : (s : Loop) → 0 < steps_left s → (t : Loop) × Runs s t
progress s left = through s.in_flight s.pending refl refl
  where
    through : (n : ℕ) (ts : List ℕ) → s.in_flight ≡ n → s.pending ≡ ts → (t : Loop) × Runs s t
    through (suc n) ts e p = (tick_done s, finishes (omega arith) refl)
    through zero (id ∷ ts) e p = (fire id s, fires id (rw p (inl refl)) refl)
    through zero [] e p = absurd (omega (arith, ap (length {0}) p))
