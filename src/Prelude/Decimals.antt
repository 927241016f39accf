-- ===== src/Prelude/Decimals.antt =====
-- Decimal texts cut in two: the value of the whole from the values of its parts.
use Prim.Native.Nat.{ℕ, zero, suc, ◌+◌, ◌-◌, ◌*◌, ◌<◌, ◌≤◌}
use mathlib.Core.Path.{◌≡◌, refl, ap, sym, ◌∙◌}
use mathlib.Core.Logic.{inl, inr}
use mathlib.Core.Bool.{Bool, true, false, ◌&&◌}
use mathlib.Core.Option.{none, some}
use mathlib.Core.List.{[], ◌∷◌, ◌++◌}
use native.Mathlib.Omega.{arith}
use cosmosvote.Prelude.Tests.{leb, Bool-cases}
use cosmosvote.Prelude.Lists.{length, replicate}
use cosmosvote.Prelude.Text.{JsString, digits_value, of_decimal}

-- Ten to a power.
abbrev pub pow10 : ℕ → ℕ
pow10 zero = 1
pow10 (suc n) = 10 * pow10 n

abbrev pub is_digit : ℕ → Bool
is_digit c = leb b'0' c && leb c b'9'

digit_first :
    (c : ℕ) (s : JsString) (n : ℕ)
    → is_digit c ≡ true
    → digits_value (c ∷ s) n ≡ digits_value s (n * 10 + (c - b'0'))
unfolding digits_value
digit_first c s n d = rw d refl

other_first : (c : ℕ) (s : JsString) (n : ℕ) → is_digit c ≡ false → digits_value (c ∷ s) n ≡ none
unfolding digits_value
other_first c s n d = rw d refl

regroup : (m d p f : ℕ) → (m * 10 + d) * p + f ≡ m * (10 * p) + (d * p + f)
regroup m d p f = omega arith

not_some : (n : ℕ) → none ≡ some n → ⊥
not_some n e = cc

-- A text of digits behind a number.
pub digits_value_shift :
    (s : JsString) (n total : ℕ)
    → digits_value s n ≡ some total
    → (f : ℕ) × (total ≡ n * pow10 (length s) + f)
      × ((m : ℕ) → digits_value s m ≡ some (m * pow10 (length s) + f))
unfolding digits_value
digits_value_shift [] n total e = (0, same n total e, λ m. ap some (omega arith))
  where
    same : (n total : ℕ) → some n ≡ some total → total ≡ n * 1 + 0
    same n total e = grind arith
digits_value_shift (c ∷ s) n total e = elim (Bool-cases (is_digit c)) [
  | inl d ↦
      let (f, sum, shifted) =
        digits_value_shift s (n * 10 + (c - b'0')) total (sym (digit_first c s n d) ∙ e) in
      let p = pow10 (length s) in
      (
        (c - b'0') * p + f,
        sum ∙ regroup n (c - b'0') p f,
        λ m.
            digit_first c s m d
            ∙ shifted (m * 10 + (c - b'0'))
            ∙ ap some (regroup m (c - b'0') p f),
      )
  | inr d ↦ absurd (not_some total (sym (other_first c s n d) ∙ e))
]

-- A text of digits stands for less than its power of ten.
nine_at_most : (c : ℕ) → is_digit c ≡ true → c - b'0' ≤ 9
nine_at_most c d = ground arith

digit_room : (n d p total : ℕ) → d ≤ 9 → total < (n * 10 + d + 1) * p → total < (n + 1) * (10 * p)
digit_room n d p total h lt = omega (arith, split_nine)
  where
    split_nine : d * p + (9 - d) * p ≡ 9 * p
    split_nine = sum d (9 - d) p ∙ ap (λ x. x * p) (omega arith)
      where
        sum : (a b p : ℕ) → a * p + b * p ≡ (a + b) * p
        sum a b p = omega arith

digits_value_lt :
    (s : JsString) (n total : ℕ)
    → digits_value s n ≡ some total
    → total < (n + 1) * pow10 (length s)
unfolding digits_value
digits_value_lt [] n total e = grind arith
digits_value_lt (c ∷ s) n total e = elim (Bool-cases (is_digit c)) [
  | inl d ↦
      digit_room n (c - b'0') (pow10 (length s)) total (nine_at_most c d)
        (digits_value_lt s (n * 10 + (c - b'0')) total (sym (digit_first c s n d) ∙ e))
  | inr d ↦ absurd (not_some total (sym (other_first c s n d) ∙ e))
]

pub of_decimal_lt :
    (s : JsString) (total : ℕ) → of_decimal s ≡ some total → total < pow10 (length s)
unfolding of_decimal
of_decimal_lt s total e = omega (arith, digits_value_lt s 0 total e)

-- The value of a text of digits is that of its front, moved by the length of its back, and that of its
-- back.
pub of_decimal-append :
    (s u : JsString) (total : ℕ)
    → of_decimal (s ++ u) ≡ some total
    → (w : ℕ) × (f : ℕ) × (of_decimal s ≡ some w)
      × (of_decimal u ≡ some f)
      × (total ≡ w * pow10 (length u) + f)
unfolding of_decimal
of_decimal-append s u total e = from s 0 e
  where
    from :
        (s : JsString) (n : ℕ)
        → digits_value (s ++ u) n ≡ some total
        → (w : ℕ) × (f : ℕ) × (digits_value s n ≡ some w)
          × (digits_value u 0 ≡ some f)
          × (total ≡ w * pow10 (length u) + f)
    from [] n e =
        let (f, sum, shifted) = digits_value_shift u n total e in
        (n, f, refl, shifted 0 ∙ ap some (omega arith), sum)
    from (c ∷ s) n e = elim (Bool-cases (is_digit c)) [
      | inl d ↦
          let (w, f, front, back, sum) =
            from s (n * 10 + (c - b'0')) (sym (digit_first c (s ++ u) n d) ∙ e) in
          (w, f, digit_first c s n d ∙ front, back, sum)
      | inr d ↦ absurd (not_some total (sym (other_first c (s ++ u) n d) ∙ e))
    ]

-- Zeros in front change nothing.
pub of_decimal-replicate :
    (k : ℕ) (s : JsString) → of_decimal (replicate k b'0' ++ s) ≡ of_decimal s
unfolding of_decimal
of_decimal-replicate zero s = refl
of_decimal-replicate (suc k) s =
    digit_first b'0' (replicate k b'0' ++ s) 0 refl ∙ of_decimal-replicate k s
