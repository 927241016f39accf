-- ===== src/Backend/Lifecycle/Chains.antt =====
-- How many polling chains a service keeps up, of backend/src/notificationService.ts.
use cosmosvote.Prelude.{
  ℕ, ◌+◌, ◌≤◌, ◌<◌, ◌≡◌, refl, ◌∙◌, Option, none, some, true, not, List, [], ◌∷◌, arith, ◌==◌,
  length, select, length-select-le, In,
}
use cosmosvote.Backend.Lifecycle.{
  Loop, idle, tick, start, clear, cleared, stop, tick_done, fire, Runs, finishes, fires, RunsFor,
  rest, more, Reach, fresh, next, started, stopped,
}

-- The ticks in flight and those that a timer will start.
abbrev pub chains : Loop → ℕ
chains s = s.in_flight + length s.pending

pub length-clear_le : (id : ℕ) (xs : List ℕ) → length (clear id xs) ≤ length xs
unfolding clear
length-clear_le id xs = length-select-le (λ t. not (t == id)) xs

pub length-clear_lt : (id : ℕ) (xs : List ℕ) → In id xs → length (clear id xs) < length xs
unfolding clear
length-clear_lt id [] m = absurd m
length-clear_lt id (x ∷ xs) m =
    ground (arith, length-clear_lt id xs, length-select-le (λ t. not (t == id)) xs)

chains-Runs : {s t : Loop} → Runs s t → chains t ≤ chains s
unfolding tick_done fire tick
chains-Runs (finishes busy e) = rw e (omega arith)
chains-Runs {s} (fires id m e) = rw e (ground (arith, length-clear_lt id s.pending m))

chains-start : (s : Loop) → chains (start s) ≤ chains s + 1
unfolding start tick
chains-start s = omega arith

length-cleared_le : (o : Option ℕ) (xs : List ℕ) → length (cleared o xs) ≤ length xs
unfolding cleared
length-cleared_le none xs = omega arith
length-cleared_le (some id) xs = length-clear_le id xs

chains-stop : (s : Loop) → chains (stop s) ≤ chains s
unfolding stop
chains-stop s = omega (arith, length-cleared_le s.timer s.pending)

-- However a service is started, stopped and run, it has at most as many polling chains as it was
-- started times.
pub chains-le_starts : {n : ℕ} {s : Loop} → Reach n s → chains s ≤ n
unfolding idle
chains-le_starts (fresh e) = rw e (omega arith)
chains-le_starts (next r st) = omega (arith, chains-le_starts r, chains-Runs st)
chains-le_starts (started {s} r e) = rw e (omega (arith, chains-le_starts r, chains-start s))
chains-le_starts (stopped {s} r e) = rw e (omega (arith, chains-le_starts r, chains-stop s))

-- Timers fall along the list and stay under the bound.
abbrev pub Below : ℕ → List ℕ → Type 0
Below n [] = Unit {0}
Below n (x ∷ xs) = (x < n) × Below x xs

Below-mono : (m n : ℕ) (xs : List ℕ) → m ≤ n → Below m xs → Below n xs
Below-mono m n [] h b = tt
Below-mono m n (x ∷ xs) h b = (omega arith, b.1)

Below-clear : (id n : ℕ) (xs : List ℕ) → Below n xs → Below n (clear id xs)
unfolding clear
Below-clear id n [] b = tt
Below-clear id n (x ∷ xs) b =
    ground (arith, Below-clear id x xs b.1, Below-mono x n (select (λ t. not (t == id)) xs))

-- A timer that is not under the bound is not in the list, and clearing it changes nothing.
length-clear_above :
    (id n : ℕ) (xs : List ℕ) → Below n xs → n ≤ id → length (clear id xs) ≡ length xs
unfolding clear
length-clear_above id n [] b h = refl
length-clear_above id n (x ∷ xs) b h = ground (arith, length-clear_above id x xs b.1)

length-clear_eq :
    (id n : ℕ) (xs : List ℕ) → Below n xs → In id xs → length (clear id xs) + 1 ≡ length xs
unfolding clear
length-clear_eq id n [] b m = absurd m
length-clear_eq id n (x ∷ xs) b m =
    ground (arith, length-clear_eq id x xs b.1, length-clear_above id x xs b.1)

Below-cleared : (o : Option ℕ) (n : ℕ) (xs : List ℕ) → Below n xs → Below n (cleared o xs)
unfolding cleared
Below-cleared none n xs b = b
Below-cleared (some id) n xs b = Below-clear id n xs b

-- The timers of a loop are in order and under the next number.
abbrev pub IsOrdered : Loop → Type 0
IsOrdered s = Below s.next_timer s.pending

IsOrdered-tick : (s : Loop) → IsOrdered s → IsOrdered (tick s)
unfolding tick
IsOrdered-tick s b = ground arith

IsOrdered-Runs : {s t : Loop} → Runs s t → IsOrdered s → IsOrdered t
unfolding tick_done fire
IsOrdered-Runs {s} (finishes busy e) b = rw e (omega arith, b)
IsOrdered-Runs {s} (fires id m e) b = rw e (
    IsOrdered-tick (record s { pending = clear id s.pending })
      (Below-clear id s.next_timer s.pending b))

pub IsOrdered-start : (s : Loop) → IsOrdered s → IsOrdered (start s)
unfolding start
IsOrdered-start s b = IsOrdered-tick (record s { running = true }) b

pub IsOrdered-stop : (s : Loop) → IsOrdered s → IsOrdered (stop s)
unfolding stop
IsOrdered-stop s b = Below-cleared s.timer s.next_timer s.pending b

pub IsOrdered-Reach : {n : ℕ} {s : Loop} → Reach n s → IsOrdered s
unfolding idle
IsOrdered-Reach (fresh e) = rw e tt
IsOrdered-Reach (next r st) = IsOrdered-Runs st (IsOrdered-Reach r)
IsOrdered-Reach (started {s} r e) = rw e (IsOrdered-start s (IsOrdered-Reach r))
IsOrdered-Reach (stopped {s} r e) = rw e (IsOrdered-stop s (IsOrdered-Reach r))

kept :
    {s t : Loop}
    → IsOrdered s
    → s.running ≡ true
    → Runs s t
    → (t.running ≡ true) × (chains t ≡ chains s)
unfolding tick_done fire tick
kept b up (finishes busy e) = (rw e up, rw e (omega arith))
kept {s} b up (fires id m e) =
    (rw (e, up) refl, rw (e, up) (omega (arith, length-clear_eq id s.next_timer s.pending b m)))

kept_for :
    {n : ℕ} {s t : Loop} → RunsFor n s t → IsOrdered s → s.running ≡ true → chains t ≡ chains s
kept_for (rest e) b up = rw e refl
kept_for (more {t} st r) b up =
    let (up', same) = kept b up st in kept_for r (IsOrdered-Runs st b) up' ∙ same

-- If a service is stopped and started again while a tick is in flight, then at least two chains poll
-- side by side after any number of steps in which it is not stopped.
pub restart_doubles :
    {n k : ℕ} {s t : Loop}
    → Reach n s
    → 0 < s.in_flight
    → RunsFor k (start (stop s)) t
    → 2 ≤ chains t
unfolding stop start tick
restart_doubles {s} r busy runs =
    let ordered = IsOrdered-start (stop s) (IsOrdered-stop s (IsOrdered-Reach r)) in
    omega (arith, kept_for runs ordered refl)
