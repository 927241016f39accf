-- ===== src/Frontend/Polling.antt =====
-- The backoff of frontend/src/hooks/usePolling.ts: the multiple of the interval that its reference
-- holds after each call of the polled function, and the delay until the next. A call is true if it
-- succeeded.
mod Examples
use cosmosvote.Prelude.{
  ℕ, zero, suc, ◌*◌, min, ◌≡◌, refl, ap, Bool, true, false, List, [], ◌∷◌, reverse_onto,
}

-- The first call: `catch { backoffRef.current = 2; }`
pub first_backoff : Bool → ℕ
first_backoff true = 1
first_backoff false = 2

-- The calls that `schedule` makes.
pub next_backoff : ℕ → Bool → ℕ
next_backoff backoff true = 1
next_backoff backoff false = min (backoff * 2) 4

-- The backoff before a number of scheduled calls, and after them.
pub backoff_from : ℕ → List Bool → ℕ
unfolding next_backoff
backoff_from backoff [] = backoff
backoff_from backoff (call ∷ calls) = backoff_from (next_backoff backoff call) calls

-- The delay to the next call, after the first call and the ones behind it.
pub delay : (interval : ℕ) → Bool → List Bool → ℕ
unfolding first_backoff backoff_from
delay interval first calls = interval * backoff_from (first_backoff first) calls

-- The calls, the newest first: how many have failed since the last that succeeded.
abbrev pub failures_in_a_row : List Bool → ℕ
failures_in_a_row [] = 0
failures_in_a_row (true ∷ older) = 0
failures_in_a_row (false ∷ older) = suc (failures_in_a_row older)

-- Doubled with each failure and never more than four.
abbrev pub expected_backoff : ℕ → ℕ
expected_backoff zero = 1
expected_backoff (suc zero) = 2
expected_backoff (suc (suc n)) = 4

backoff_step :
    (older : List Bool) (call : Bool)
    → next_backoff (expected_backoff (failures_in_a_row older)) call
      ≡ expected_backoff (failures_in_a_row (call ∷ older))
unfolding next_backoff
backoff_step older true = refl
backoff_step older false = doubled (failures_in_a_row older)
  where
    doubled : (n : ℕ) → min (expected_backoff n * 2) 4 ≡ expected_backoff (suc n)
    doubled zero = refl
    doubled (suc zero) = refl
    doubled (suc (suc n)) = refl

backoff_from_lem :
    (older calls : List Bool)
    → backoff_from (expected_backoff (failures_in_a_row older)) calls
      ≡ expected_backoff (failures_in_a_row (reverse_onto calls older))
unfolding backoff_from
backoff_from_lem older [] = refl
backoff_from_lem older (call ∷ calls) =
    rw (backoff_step older call) (backoff_from_lem (call ∷ older) calls)

-- The delay to the next call is the interval, doubled for one failure since the last call that
-- succeeded, and fourfold for two or more.
pub delay_lem :
    (interval : ℕ) (first : Bool) (calls : List Bool)
    → delay interval first calls
      ≡ interval * expected_backoff (failures_in_a_row (reverse_onto calls (first ∷ [])))
unfolding delay first_backoff
delay_lem interval true calls = ap (λ b. interval * b) (backoff_from_lem (true ∷ []) calls)
delay_lem interval false calls = ap (λ b. interval * b) (backoff_from_lem (false ∷ []) calls)
