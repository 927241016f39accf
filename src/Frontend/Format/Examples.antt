-- ===== src/Frontend/Format/Examples.antt =====
-- The theorem on frontend/src/utils.ts at a concrete amount.
use cosmosvote.Prelude.{
  ℕ, ◌+◌, ◌*◌, ◌≤◌, ◌<◌, ◌≡◌, refl, some, ◌∷◌, ◌++◌, arith, JsString, js, to_decimal, of_decimal,
  length,
}
use cosmosvote.Frontend.Format.Groups.{IsGrouped, IsTwo}
use cosmosvote.Frontend.Format.{
  slice_front, slice_back, group_digits, pad_start, pad_end, slice_without, with_fraction,
  format_token_amount,
}
use cosmosvote.Prelude.{pow10}
use cosmosvote.Frontend.Format.Amounts.{format_token_amount_lem}

amount_test : format_token_amount 12345678 2 ≡ js "123,456.78 CVT"
unfolding format_token_amount with_fraction pad_start slice_without slice_back slice_front pad_end
    group_digits js to_decimal
amount_test = refl

format_token_amount_lem_example :
    (whole : JsString) × (fraction : JsString) × (text : JsString) × (a : ℕ) × (b : ℕ) × (w : ℕ)
    × (f : ℕ) × (format_token_amount 12345678 7 ≡ text ++ b'.' ∷ a ∷ b ∷ js " CVT")
    × IsGrouped whole text
    × IsTwo fraction a b
    × (1 ≤ length whole)
    × (length fraction ≡ 7)
    × (of_decimal whole ≡ some w)
    × (of_decimal fraction ≡ some f)
    × (f < pow10 7)
    × (12345678 ≡ w * pow10 7 + f)
format_token_amount_lem_example = format_token_amount_lem 12345678 7 (omega arith)
