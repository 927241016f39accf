-- ===== src/Frontend/Forms/Create/Confirmation.antt =====
-- The wait for the confirmation in frontend/src/components/CreateProposalForm.tsx.
use cosmosvote.Prelude.{
  ℕ, zero, suc, ◌+◌, ◌<◌, ◌≡◌, refl, ap, ◌∙◌, ◌⊎◌, inl, inr, Option, none, some, arith, JsString,
  js, or_else, Result, ok, throws,
}
use cosmosvote.Frontend.Forms.Create.Submission.{
  Ending, confirmed, Status, success, failed, not_found, confirm,
}

-- What an answer decides; none where the loop goes on.
pub decided : Result JsString Status → Option (Result JsString Ending)
decided (throws e) = some (throws e)
decided (ok (success id)) = some (ok (confirmed (or_else id 0)))
decided (ok failed) = some (throws (js "Transaction failed on-chain."))
decided (ok not_found) = none

-- The first answer that decides, among the next ones, decides; without one the wait times out.
abbrev IsDecided : (ℕ → Result JsString Status) → ℕ → ℕ → Result JsString Ending → Type 0
IsDecided ask a n r =
    ((k : ℕ) × (k < n)
      × ((j : ℕ) → j < k → ask (a + j) ≡ ok not_found)
      × (decided (ask (a + k)) ≡ some r))
    ⊎ (((j : ℕ) → j < n → ask (a + j) ≡ ok not_found)
        × (r ≡ throws (js "Transaction timed out waiting for confirmation.")))

decides_now :
    (ask : ℕ → Result JsString Status) (a n : ℕ) (r : Result JsString Ending)
    → decided (ask a) ≡ some r
    → IsDecided ask a (suc n) r
decides_now ask a n r e = inl (0, omega arith, λ j h. absurd (omega arith), rw (at_zero a) e)
  where
    at_zero : (a : ℕ) → a + 0 ≡ a
    at_zero a = omega arith

waited :
    (ask : ℕ → Result JsString Status) (a j : ℕ)
    → ask a ≡ ok not_found
    → ((i : ℕ) → suc i ≡ j → ask (a + 1 + i) ≡ ok not_found)
    → ask (a + j) ≡ ok not_found
waited ask a zero now later = ap ask (omega arith) ∙ now
waited ask a (suc i) now later = ap ask (omega arith) ∙ later i refl

decides_later :
    (ask : ℕ → Result JsString Status) (a n : ℕ) (r : Result JsString Ending)
    → ask a ≡ ok not_found
    → IsDecided ask (a + 1) n r
    → IsDecided ask a (suc n) r
decides_later ask a n r now (inl (k, lt, before, e)) = inl (
  suc k,
  omega arith,
  λ j h. waited ask a j now (λ i g. before i (omega arith)),
  ap (λ m. decided (ask m)) (omega arith) ∙ e,
)
decides_later ask a n r now (inr (before, e)) =
    inr (λ j h. waited ask a j now (λ i g. before i (omega arith)), e)

confirm-IsDecided :
    (ask : ℕ → Result JsString Status) (left a : ℕ) → IsDecided ask a left (confirm ask left a)
unfolding confirm decided
confirm-IsDecided ask zero a = inr (λ j h. absurd (omega arith), refl)
confirm-IsDecided ask (suc left) a = from (ask a) refl (confirm-IsDecided ask left (a + 1))
  where
    from :
        (answer : Result JsString Status)
        → ask a ≡ answer
        → IsDecided ask (a + 1) left (confirm ask left (a + 1))
        → IsDecided ask a (suc left) (confirm ask (suc left) a)
    from (throws e) h later = rw (confirm, h) (decides_now ask a left (throws e) (rw h refl))
    from (ok (success id)) h later =
        rw (confirm, h) (decides_now ask a left (ok (confirmed (or_else id 0))) (rw h refl))
    from (ok failed) h later =
        rw (confirm, h)
          (decides_now ask a left (throws (js "Transaction failed on-chain.")) (rw h refl))
    from (ok not_found) h later =
        rw (confirm, h) (decides_later ask a left (confirm ask left (a + 1)) h later)

-- The wait for a confirmation ends with the first of its first twenty answers that is an error, a
-- success or a failure, and with what that answer decides; where there is none among them it times
-- out.
pub confirm_lem :
    (ask : ℕ → Result JsString Status)
    → ((k : ℕ) × (k < 20)
        × ((j : ℕ) → j < k → ask j ≡ ok not_found)
        × (decided (ask k) ≡ some (confirm ask 20 0)))
      ⊎ (((j : ℕ) → j < 20 → ask j ≡ ok not_found)
          × (confirm ask 20 0 ≡ throws (js "Transaction timed out waiting for confirmation.")))
confirm_lem ask = elim (confirm-IsDecided ask 20 0) [
  | inl (k, lt, before, e) ↦
      inl (
        k,
        lt,
        λ j h. ap ask (omega arith) ∙ before j h,
        ap (λ m. decided (ask m)) (omega arith) ∙ e,
      )
  | inr (before, e) ↦ inr (λ j h. ap ask (omega arith) ∙ before j h, e)
]
