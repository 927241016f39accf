-- ===== src/Frontend/Format/Amounts.antt =====
-- What frontend/src/utils.ts shows of an amount.
use cosmosvote.Prelude.{
  append_assoc, ℕ, zero, suc, ◌+◌, ◌-◌, ◌*◌, ◌≤◌, ◌<◌, ◌≡◌, refl, ap, ◌∙◌, subst, some, false, [],
  ◌∷◌, ◌++◌, arith, JsString, js, to_decimal, of_decimal, pow10, of_decimal-append, of_decimal_lt,
  of_decimal-replicate, of_decimal-to_decimal, ◌==◌, length, replicate, take, drop, length-append,
  length-take, length-drop, take-append-drop,
}
use cosmosvote.Frontend.Format.Groups.{IsGrouped, group_digits-IsGrouped, IsTwo, pad_end-IsTwo}
use cosmosvote.Frontend.Format.{
  slice_front, slice_back, group_digits, pad_start, pad_end, slice_without, with_fraction,
  format_token_amount,
}

length-replicate : (n c : ℕ) → length (replicate n c) ≡ n
length-replicate zero c = refl
length-replicate (suc n) c = ap suc (length-replicate n c)

positive : (n : ℕ) → 1 ≤ n → (n == 0) ≡ false
positive n h = ground arith

two_shown :
    (front padded name : JsString) (a b : ℕ)
    → padded ≡ a ∷ b ∷ []
    → front ++ b'.' ∷ padded ++ name ≡ front ++ b'.' ∷ a ∷ b ∷ name
two_shown front padded name a b h = rw (h, append_assoc) refl

-- With decimals, the text is a whole part in groups of three, a point, two digits and the name of the token:
-- the groups are divided by commas, and only the first can have fewer than three. The whole part and the
-- fraction, of which the two digits are the first, or the only one and a zero, are the digits of the
-- amount: it is the whole part times the power of ten plus the fraction, which is below that power.
pub format_token_amount_lem :
    (amount decimals : ℕ)
    → 1 ≤ decimals
    → (whole : JsString) × (fraction : JsString) × (text : JsString) × (a : ℕ) × (b : ℕ) × (w : ℕ)
      × (f : ℕ) × (format_token_amount amount decimals ≡ text ++ b'.' ∷ a ∷ b ∷ js " CVT")
      × IsGrouped whole text
      × IsTwo fraction a b
      × (1 ≤ length whole)
      × (length fraction ≡ decimals)
      × (of_decimal whole ≡ some w)
      × (of_decimal fraction ≡ some f)
      × (f < pow10 decimals)
      × (amount ≡ w * pow10 decimals + f)
unfolding format_token_amount with_fraction pad_start slice_without slice_back slice_front
format_token_amount_lem amount decimals h =
    let digits = to_decimal amount in
    let padded = replicate (decimals + 1 - length digits) b'0' ++ digits in
    let cut = length padded - decimals in
    let whole = take cut padded in
    let fraction = drop cut padded in
    let size = length-append (replicate (decimals + 1 - length digits) b'0') digits in
    let zeros = length-replicate (decimals + 1 - length digits) b'0' in
    let value =
      of_decimal-replicate (decimals + 1 - length digits) digits ∙ of_decimal-to_decimal amount in
    let (w, f, front, back, sum) =
      of_decimal-append whole fraction amount
        (ap of_decimal (take-append-drop cut padded) ∙ value) in
    let back_size : length fraction ≡ decimals =
      length-drop cut padded ∙ omega (arith, size, zeros) in
    let front_size : 1 ≤ length whole = omega (arith, length-take cut padded, size, zeros) in
    let (a, b, shown, two) = pad_end-IsTwo fraction in
    (
      whole,
      fraction,
      group_digits whole,
      a,
      b,
      w,
      f,
      rw (positive decimals h) refl
          ∙ two_shown (group_digits whole) (pad_end 2 (take 2 fraction)) (js " CVT") a b shown,
      group_digits-IsGrouped whole front_size,
      two,
      front_size,
      back_size,
      front,
      back,
      subst (λ n. f < pow10 n) back_size (of_decimal_lt fraction f back),
      subst (λ n. amount ≡ w * pow10 n + f) back_size sum,
    )
