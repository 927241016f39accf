-- ===== src/Frontend/Format.antt =====
-- How frontend/src/utils.ts writes amounts of tokens and addresses. An amount is not negative.
pub mod Groups
pub mod Amounts
mod Examples
use cosmosvote.Prelude.{
  ℕ, ◌+◌, ◌-◌, ◌%◌, ◌&&◌, [], ◌∷◌, ◌++◌, JsString, js, to_decimal, leb, ◌==◌, if◌then◌else◌, length,
  replicate, take, drop,
}

-- `slice(0, n)` and `slice(-n)`, for n from one on.
pub slice_front : ℕ → JsString → JsString
slice_front n s = take n s

pub slice_back : ℕ → JsString → JsString
slice_back n s = drop (length s - n) s

pub mask_address : JsString → JsString
unfolding slice_front slice_back
mask_address addr = slice_front 6 addr ++ js "..." ++ slice_back 4 addr

-- `replace(/\B(?=(\d{3})+(?!\d))/g, ',')` on a text of digits: a comma stands wherever a positive multiple
-- of three digits follows.
pub group_digits : JsString → JsString
group_digits [] = []
group_digits (c ∷ s) =
    let rest = group_digits s in
    if leb 1 (length s) && length s % 3 == 0 then c ∷ b',' ∷ rest else c ∷ rest

pub pad_start : ℕ → JsString → JsString
pad_start n s = replicate (n - length s) b'0' ++ s

pub pad_end : ℕ → JsString → JsString
pad_end n s = s ++ replicate (n - length s) b'0'

-- `slice(0, -n)`
pub slice_without : ℕ → JsString → JsString
slice_without n s = take (length s - n) s

pub with_fraction : ℕ → JsString → JsString
unfolding group_digits slice_without slice_back pad_end slice_front
with_fraction decimals padded =
    group_digits (slice_without decimals padded)
    ++ b'.' ∷ pad_end 2 (slice_front 2 (slice_back decimals padded))
    ++ js " CVT"

pub format_token_amount : (amount decimals : ℕ) → JsString
unfolding group_digits pad_start with_fraction
format_token_amount amount decimals =
    if decimals == 0
    then group_digits (to_decimal amount)
    else with_fraction decimals (pad_start (decimals + 1) (to_decimal amount))
