-- ===== src/Prelude/Text.antt =====
-- JavaScript strings: lists of UTF-16 code units, with the operations that the source uses.
use Prim.Native.Nat.{ℕ, zero, suc, ◌+◌, ◌-◌, ◌*◌, ◌/◌, ◌%◌, ◌<◌}
use Prim.Native.Char.{code}
use Prim.Native.String.{String}
use mathlib.Core.Path.{◌≡◌, refl}
use mathlib.Core.Logic.{◌↔◌, ◌≢◌}
use mathlib.Core.Bool.{Bool, true, false, ◌&&◌, ◌||◌}
use mathlib.Core.Option.{Option, none, some}
use mathlib.Core.List.{List, [], ◌∷◌, ◌++◌, reverse}
use native.Mathlib.Omega.{arith}
use cosmosvote.Prelude.Tests.{ltb, leb, ◌==◌, if◌then◌else◌}
use cosmosvote.Prelude.Lists.{length, drop}

abbrev pub JsString : Type 0
JsString = List ℕ

-- One code point as one or two code units, in front of the rest.
abbrev utf16 : ℕ → JsString → JsString
utf16 c rest =
    if ltb c 0x10000
    then c ∷ rest
    else (0xd800 + (c - 0x10000) / 0x400) ∷ (0xdc00 + (c - 0x10000) % 0x400) ∷ rest

-- A string literal of the source.
unfoldable pub js : String → JsString
js String.[] = []
js (String.◌∷◌ c s) = utf16 (code c) (js s)

infix 50 ◌===◌
unfoldable pub ◌===◌ : JsString → JsString → Bool
[] === [] = true
(x ∷ xs) === (y ∷ ys) = x == y && xs === ys
_ === _ = false

pub ===_refl : (s : JsString) → (s === s) ≡ true
unfolding ◌===◌
===_refl [] = refl
===_refl (x ∷ xs) = ground (arith, ===_refl xs)

pub ===→≡ : (s t : JsString) → (s === t) ≡ true → s ≡ t
unfolding ◌===◌
===→≡ [] [] h = refl
===→≡ (x ∷ xs) (y ∷ ys) h = ground (arith, ===→≡ xs ys)
===→≡ [] (y ∷ ys) h = cc
===→≡ (x ∷ xs) [] h = cc

pub ===_iff : (s t : JsString) → ((s === t) ≡ true) ↔ (s ≡ t)
===_iff s t = (===→≡ s t, λ e. rw e (===_refl t))

pub differ : (s t : JsString) → (s === t) ≡ false → s ≢ t
differ s t h e = cc ((===_iff s t).1 e)

-- The truthiness of a string, and of a string that may be undefined.
abbrev pub truthy : JsString → Bool
truthy [] = false
truthy (x ∷ xs) = true

abbrev pub is_set : Option JsString → Bool
is_set none = false
is_set (some s) = truthy s

-- `a ?? b` on two values that may be undefined, and on one that is not.
abbrev pub nullish {ℓ} : {A : Type ℓ} → Option A → Option A → Option A
nullish none b = b
nullish (some a) b = some a

abbrev pub or_else {ℓ} : {A : Type ℓ} → Option A → A → A
or_else none d = d
or_else (some a) d = a

unfoldable pub starts_with : JsString → JsString → Bool
starts_with s [] = true
starts_with [] (y ∷ ys) = false
starts_with (x ∷ xs) (y ∷ ys) = x == y && starts_with xs ys

pub starts_with-append : (p s : JsString) → starts_with (p ++ s) p ≡ true
unfolding starts_with
starts_with-append [] [] = refl
starts_with-append [] (x ∷ s) = refl
starts_with-append (x ∷ p) s = ground (arith, starts_with-append p s)

pub drop-append : (p s : JsString) → drop (length p) (p ++ s) ≡ s
drop-append [] s = refl
drop-append (x ∷ p) s = drop-append p s

-- A string that starts with a prefix is the prefix and what `slice` leaves.
pub append-drop : (s p : JsString) → starts_with s p ≡ true → p ++ drop (length p) s ≡ s
unfolding starts_with
append-drop s [] h = refl
append-drop [] (y ∷ p) h = cc
append-drop (x ∷ s) (y ∷ p) h = ground (arith, append-drop s p)

-- `split` by one code unit.
abbrev pub push_front : ℕ → List JsString → List JsString
push_front x [] = (x ∷ []) ∷ []
push_front x (s ∷ ss) = (x ∷ s) ∷ ss

unfoldable pub split : ℕ → JsString → List JsString
split c [] = [] ∷ []
split c (x ∷ s) = let rest = split c s in if x == c then [] ∷ rest else push_front x rest

-- The white space and line terminators that `trim` removes.
unfoldable pub is_space : ℕ → Bool
is_space c =
    (leb 9 c && leb c 13)
    || c == 32
    || c == 0xa0
    || c == 0x1680
    || (leb 0x2000 c && leb c 0x200a)
    || c == 0x2028
    || c == 0x2029
    || c == 0x202f
    || c == 0x205f
    || c == 0x3000
    || c == 0xfeff

unfoldable pub trim_start : JsString → JsString
trim_start [] = []
trim_start (c ∷ s) = if is_space c then trim_start s else c ∷ s

unfoldable pub trim : JsString → JsString
trim s = reverse (trim_start (reverse (trim_start s)))

-- `===` on strings that may be undefined.
unfoldable pub same_option : Option JsString → Option JsString → Bool
same_option none none = true
same_option (some s) (some t) = s === t
same_option _ _ = false

pub same_option_iff : (a b : Option JsString) → (same_option a b ≡ true) ↔ (a ≡ b)
unfolding same_option
same_option_iff none none = ground arith
same_option_iff none (some t) = ground arith
same_option_iff (some s) none = ground arith
same_option_iff (some s) (some t) = ground (arith, ===_iff s t)

-- `table[key]` on an object literal, for keys that `Object.prototype` has not.
unfoldable pub lookup {ℓ} : {A : Type ℓ} → JsString → List (JsString × A) → Option A
lookup key [] = none
lookup key ((k, v) ∷ table) = if k === key then some v else lookup key table

-- `String(n)`: the decimal digits, the last one first found. Fuel `suc n` is more than `n` has digits.
digits_from : ℕ → ℕ → JsString → JsString
digits_from zero n out = out
digits_from (suc fuel) n out =
    let more = digits_from fuel (n / 10) ((b'0' + n % 10) ∷ out) in
    if ltb n 10 then (b'0' + n) ∷ out else more

unfoldable pub to_decimal : ℕ → JsString
unfolding digits_from
to_decimal n = digits_from (suc n) n []

-- `Number(s)` of a text of decimal digits that stand for less than 2 ^ 53; none for another text.
unfoldable pub digits_value : JsString → ℕ → Option ℕ
digits_value [] n = some n
digits_value (c ∷ s) n =
    let rest = digits_value s (n * 10 + (c - b'0')) in
    if leb b'0' c && leb c b'9' then rest else none

unfoldable pub of_decimal : JsString → Option ℕ
unfolding digits_value
of_decimal s = digits_value s 0

digits_value-cons :
    (d n : ℕ) (s : JsString)
    → d < 10
    → digits_value ((b'0' + d) ∷ s) n ≡ digits_value s (n * 10 + d)
unfolding digits_value
digits_value-cons d n s h = ground (arith, digit_sum d n)
  where
    digit_sum : (d n : ℕ) → n * 10 + (b'0' + d - b'0') ≡ n * 10 + d
    digit_sum d n = omega arith

digits_value-digits_from :
    (fuel n : ℕ) (out : JsString)
    → n < fuel
    → digits_value (digits_from fuel n out) 0 ≡ digits_value out n
unfolding digits_from
digits_value-digits_from zero n out h = absurd (omega arith)
digits_value-digits_from (suc fuel) n out h = ground (
  arith,
  digits_value-digits_from fuel (n / 10) ((b'0' + n % 10) ∷ out),
  digits_value-cons (n % 10) (n / 10) out,
  digits_value-cons n 0 out,
)

pub of_decimal-to_decimal : (n : ℕ) → of_decimal (to_decimal n) ≡ some n
unfolding of_decimal to_decimal digits_value
of_decimal-to_decimal n = digits_value-digits_from (suc n) n [] (omega arith)

pub to_decimal_injective : (m n : ℕ) → to_decimal m ≡ to_decimal n → m ≡ n
to_decimal_injective m n e = cc (of_decimal-to_decimal m, of_decimal-to_decimal n, e)
