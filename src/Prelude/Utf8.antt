-- ===== src/Prelude/Utf8.antt =====
-- The length of a string in UTF-8, against its code units.
use Prim.Native.Nat.{ℕ, ◌+◌, ◌*◌, ◌≤◌, ◌<◌}
use mathlib.Core.Path.{◌≡◌, refl}
use mathlib.Core.Logic.{inl, inr}
use mathlib.Core.Bool.{Bool, true, false, ◌&&◌}
use mathlib.Core.List.{[], ◌∷◌}
use native.Mathlib.Omega.{arith}
use cosmosvote.Prelude.Tests.{ltb, leb, if◌then◌else◌, Bool-cases}
use cosmosvote.Prelude.Lists.{length, All}
use cosmosvote.Prelude.Text.{JsString, truthy}

abbrev pub is_high : ℕ → Bool
is_high c = leb 0xd800 c && leb c 0xdbff

abbrev pub is_low : ℕ → Bool
is_low c = leb 0xdc00 c && leb c 0xdfff

-- The bytes of a code unit that is not the first of a pair.
unfoldable pub unit_bytes : ℕ → ℕ
unit_bytes c = if ltb c 0x80 then 1 else if ltb c 0x800 then 2 else 3

-- The bytes of a string in UTF-8: a pair of surrogates takes four, and one that stands alone is written
-- as U+FFFD, in three.
unfoldable pub utf8_length : JsString → ℕ
utf8_length [] = 0
utf8_length (c ∷ []) = unit_bytes c
utf8_length (c ∷ x ∷ s) =
    let pair = utf8_length s in
    let single = utf8_length (x ∷ s) in
    if is_high c && is_low x then 4 + pair else unit_bytes c + single

unit_bytes_bounds : (c : ℕ) → (1 ≤ unit_bytes c) × (unit_bytes c ≤ 3)
unfolding unit_bytes
unit_bytes_bounds c = ground arith

-- A string takes at least a byte and at most three for each code unit.
pub utf8_length_bounds :
    (s : JsString) → (truthy s ≡ true → 1 ≤ utf8_length s) × (utf8_length s ≤ 3 * length s)
unfolding utf8_length
utf8_length_bounds [] = (λ e. cc, omega arith)
utf8_length_bounds (c ∷ []) = (λ e. (unit_bytes_bounds c).0, omega (arith, unit_bytes_bounds c))
utf8_length_bounds (c ∷ x ∷ s) = elim (Bool-cases (is_high c && is_low x)) [
  | inl e ↦ rw e (λ h. omega arith, omega (arith, utf8_length_bounds s))
  | inr e ↦ rw e (
    λ h. omega (arith, unit_bytes_bounds c),
    omega (arith, unit_bytes_bounds c, utf8_length_bounds (x ∷ s)),
  )
]

ascii_bytes : (c : ℕ) → c < 128 → unit_bytes c ≡ 1
unfolding unit_bytes
ascii_bytes c h = ground arith

ascii_alone : (c x : ℕ) → c < 128 → (is_high c && is_low x) ≡ false
ascii_alone c x h = ground arith

-- A text of ASCII characters has as many bytes as code units.
pub utf8_length_ascii : (s : JsString) → All (λ c. c < 128) s → utf8_length s ≡ length s
unfolding utf8_length
utf8_length_ascii [] h = refl
utf8_length_ascii (c ∷ []) h = ascii_bytes c h.0
utf8_length_ascii (c ∷ x ∷ s) h =
    rw (ascii_alone c x h.0, ascii_bytes c h.0, utf8_length_ascii (x ∷ s) h.1) (omega arith)

-- Nor does it take less than a byte for each.
pub utf8_length-le : (s : JsString) → length s ≤ utf8_length s
unfolding utf8_length
utf8_length-le [] = omega arith
utf8_length-le (c ∷ []) = omega (arith, unit_bytes_bounds c)
utf8_length-le (c ∷ x ∷ s) = elim (Bool-cases (is_high c && is_low x)) [
  | inl e ↦ rw e (omega (arith, utf8_length-le s))
  | inr e ↦ rw e (omega (arith, unit_bytes_bounds c, utf8_length-le (x ∷ s)))
]
