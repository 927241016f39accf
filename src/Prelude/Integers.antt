-- ===== src/Prelude/Integers.antt =====
-- Integers over the native numbers, `bigint` and the contracts' `i128`, and the texts that stand for them.
use Prim.Native.Nat.{ℕ, zero, suc, ◌+◌, ◌-◌, ◌*◌}
use mathlib.Core.Bool.{Bool, true, false, ◌&&◌, ◌||◌}
use mathlib.Core.Option.{Option, none, some}
use mathlib.Core.List.{[], ◌∷◌}
use cosmosvote.Prelude.Tests.{ltb, leb, ◌==◌, if◌then◌else◌}
use cosmosvote.Prelude.Text.{JsString, trim, trim_start}

pub data ℤ : Type 0 where
  pos : ℕ → ℤ
  negsuc : ℕ → ℤ

abbrev negative_of : ℕ → ℤ
negative_of zero = pos zero
negative_of (suc n) = negsuc n

-- `n >= k` and `k >= n`.
abbrev pub at_least : ℕ → ℤ → Bool
at_least n (pos k) = leb k n
at_least n (negsuc k) = true

abbrev pub geb : ℤ → ℤ → Bool
geb (pos m) (pos n) = leb n m
geb (pos m) (negsuc n) = true
geb (negsuc m) (pos n) = false
geb (negsuc m) (negsuc n) = leb m n

abbrev as_positive : Option ℕ → Option ℤ
as_positive none = none
as_positive (some n) = some (pos n)

abbrev as_negative : Option ℕ → Option ℤ
as_negative none = none
as_negative (some n) = some (negative_of n)

-- The digit of a code unit; 16 where it is none.
abbrev digit_of : ℕ → ℕ
digit_of c =
    if leb b'0' c && leb c b'9'
    then c - b'0'
    else if leb b'a' c && leb c b'f'
    then 10 + (c - b'a')
    else if leb b'A' c && leb c b'F'
    then 10 + (c - b'A')
    else 16

radix_value : ℕ → JsString → ℕ → Option ℕ
radix_value radix [] n = some n
radix_value radix (c ∷ s) n =
    let rest = radix_value radix s (n * radix + digit_of c) in
    if ltb (digit_of c) radix then rest else none

-- At least one digit.
abbrev some_digits : ℕ → JsString → Option ℕ
some_digits radix [] = none
some_digits radix (c ∷ s) = radix_value radix (c ∷ s) 0

abbrev prefixed : ℕ → JsString → Option ℤ → Option ℤ
prefixed x s decimal =
    if x == b'x' || x == b'X'
    then as_positive (some_digits 16 s)
    else if x == b'o' || x == b'O'
    then as_positive (some_digits 8 s)
    else if x == b'b' || x == b'B'
    then as_positive (some_digits 2 s)
    else decimal

integer_literal : JsString → Option ℤ
unfolding radix_value
integer_literal [] = some (pos 0)
integer_literal (c ∷ []) = as_positive (some_digits 10 (c ∷ []))
integer_literal (c ∷ x ∷ s) =
    if c == b'-'
    then as_negative (some_digits 10 (x ∷ s))
    else if c == b'+'
    then as_positive (some_digits 10 (x ∷ s))
    else if c == b'0'
    then prefixed x s (as_positive (some_digits 10 (c ∷ x ∷ s)))
    else as_positive (some_digits 10 (c ∷ x ∷ s))

-- `BigInt(text)`; none where it throws a SyntaxError.
unfoldable pub to_bigint : JsString → Option ℤ
unfolding integer_literal
to_bigint text = integer_literal (trim text)

-- The value of the digits in front, behind those read so far; none without one.
leading_digits : JsString → Option ℕ → Option ℕ
leading_digits [] read = read
leading_digits (c ∷ s) read =
    let rest = leading_digits s (some (add_digit read (c - b'0'))) in
    if leb b'0' c && leb c b'9' then rest else read
  where
    add_digit : Option ℕ → ℕ → ℕ
    add_digit none d = d
    add_digit (some n) d = n * 10 + d

signed : JsString → Option ℤ
unfolding leading_digits
signed [] = none
signed (c ∷ s) =
    if c == b'-'
    then as_negative (leading_digits s none)
    else if c == b'+'
    then as_positive (leading_digits s none)
    else as_positive (leading_digits (c ∷ s) none)

-- `parseInt(text, 10)` for integers below 2 ^ 53; none is NaN.
unfoldable pub parse_int : JsString → Option ℤ
unfolding signed
parse_int text = signed (trim_start text)
