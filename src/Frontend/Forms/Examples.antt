-- ===== src/Frontend/Forms/Examples.antt =====
-- The theorems on the two proposal forms at concrete forms, with numbers in tenths for the doubles.

use cosmosvote.Prelude.{
  digits_value, trim_start, is_space, ℤ, pos, negsuc, ℕ, zero, suc, ◌+◌, ◌*◌, ◌/◌, ◌%◌, ◌≤◌, ◌<◌,
  ◌≡◌, refl, ◌⊎◌, inl, inr, Option, none, some, Bool, true, false, List, [], ◌∷◌, arith, JsString,
  js, ◌===◌, of_decimal, starts_with, split, trim, ltb, leb, ◌==◌, if◌then◌else◌, length, Result,
  ok, throws,
}
use cosmosvote.Frontend.Access.{Environment, NetworkConfig, address, string, u64, i128}
use cosmosvote.Frontend.Forms.{FieldName, FormState, with_value, Doubles, IsRounding}
use cosmosvote.Frontend.Forms.Create.{
  field_error, has_any, text_error, quorum_error, duration_error, rounded,
}
use cosmosvote.Frontend.Forms.Create.Submission.{
  Network, arguments, confirm, Status, success, not_found, confirmed, hash,
}
use cosmosvote.Frontend.Forms.Create.Confirmation.{decided, confirm_lem}
use cosmosvote.Frontend.Forms.Create.Submission.{
  submission, transaction, sign_and_send, hash_of, no_simulation_error,
}
use cosmosvote.Frontend.Forms.Create.Pages.{
  open_form, handle_change, handle_blur, begin_submit, end_submit, Session, submit,
}

abbrev tenths_of : List JsString → Option ℕ
tenths_of (a ∷ []) = elim (of_decimal a) [ none ↦ none | some n ↦ some (10 * n) ]
tenths_of (a ∷ b ∷ []) = elim (of_decimal a) [
  | none ↦ none
  | some n ↦ elim (of_decimal b) [
    | none ↦ none
    | some m ↦ if length b == 1 then some (10 * n + m) else none
  ]
]
tenths_of _ = none

abbrev on_numbers : (ℕ → ℕ → Bool) → Option ℕ → Option ℕ → Bool
on_numbers f (some a) (some b) = f a b
on_numbers f _ _ = false

abbrev is_none : Option ℕ → Bool
is_none none = true
is_none (some n) = false

abbrev is_whole : Option ℕ → Bool
is_whole none = false
is_whole (some n) = n % 10 == 0

abbrev nearest : Option ℕ → Option ℤ
nearest none = none
nearest (some n) = some (pos ((n + 5) / 10))

abbrev pub tenths : Doubles (Option ℕ)
tenths = record {
  number = λ s. tenths_of (split 46 (trim s));
  is_nan = is_none;
  is_integer = is_whole;
  whole = λ n. some (10 * n);
  lt = on_numbers ltb;
  le = on_numbers leb;
  round = nearest;
}

tenths_between :
    (a b : ℕ) (x : Option ℕ)
    → is_none x ≡ false
    → on_numbers ltb x (some (10 * a)) ≡ false
    → on_numbers ltb (some (10 * b)) x ≡ false
    → (n : ℕ) × (nearest x ≡ some (pos n)) × (a ≤ n) × (n ≤ b)
tenths_between a b none h low high = cc
tenths_between a b (some n) h low high =
    ((n + 5) / 10, refl, at_least a n (ground arith), at_most b n (ground arith))
  where
    at_least : (a n : ℕ) → 10 * a ≤ n → a ≤ (n + 5) / 10
    at_least a n h = omega arith

    at_most : (b n : ℕ) → n ≤ 10 * b → (n + 5) / 10 ≤ b
    at_most b n h = omega arith

tenths_above :
    (x : Option ℕ) → is_none x ≡ false → (nearest x ≡ none) ⊎ ((n : ℕ) × (nearest x ≡ some (pos n)))
tenths_above none h = inl refl
tenths_above (some n) h = inr ((n + 5) / 10, refl)

tenths-IsRounding : IsRounding tenths
tenths-IsRounding = record {
  round_between = λ a b x _ h low high. tenths_between a b x h low high;
  round_above_zero = λ x h _. tenths_above x h;
}

abbrev answers : ℕ → Result JsString Status
answers zero = ok not_found
answers (suc zero) = ok not_found
answers _ = ok (success (some 7))

abbrev net : Network JsString
net = record {
  get_account = λ wallet. ok 41;
  to_i128 = λ k. elim k [
    | pos n ↦
        if ltb n 170141183460469231731687303715884105728
        then ok (pos n)
        else throws (js "RangeError")
    | negsuc n ↦ ok (negsuc n)
  ];
  to_u64 = λ k. elim k [ pos n ↦ ok n | negsuc n ↦ throws (js "RangeError") ];
  build = λ tx. ok tt;
  simulate = λ tx. ok none;
  assemble = λ tx. ok tx;
  prompt = some (js "SECRET");
  sign = λ key tx. ok key;
  send = λ signed. ok (hash (js "abc"));
  status = λ h. answers;
}

abbrev filled : FormState
filled = record {
  title = js " Fund ";
  description = js "Ça";
  quorum = js "0.4";
  duration = js "3600";
}

confirm_test : confirm answers 20 0 ≡ ok (confirmed 7)
unfolding confirm
confirm_test = refl

filled_valid : has_any (field_error tenths filled) ≡ false
unfolding has_any field_error text_error quorum_error duration_error js trim trim_start is_space
    split of_decimal digits_value
filled_valid = refl

-- The quorum rounds to zero, which the contract refuses.
filled_test :
    arguments tenths net (js "G") filled
    ≡ ok (address (js "G") ∷ string (js "Fund") ∷ string (js "Ça") ∷ i128 (pos 0) ∷ u64 3600 ∷ [])
unfolding arguments rounded js trim trim_start is_space split of_decimal digits_value
filled_test = refl

confirm_lem_example :
    ((k : ℕ) × (k < 20)
      × ((j : ℕ) → j < k → answers j ≡ ok not_found)
      × (decided (answers k) ≡ some (confirm answers 20 0)))
    ⊎ (((j : ℕ) → j < 20 → answers j ≡ ok not_found)
        × (confirm answers 20 0 ≡ throws (js "Transaction timed out waiting for confirmation.")))
confirm_lem_example = confirm_lem answers

abbrev environment : Environment
environment = record {
  governance_contract_id = none;
  token_contract_id = none;
  treasury_contract_id = none;
  network = none;
}

abbrev config : NetworkConfig
config = record {
  rpc_url = [];
  network_passphrase = [];
  governance_contract_id = js "C";
  token_contract_id = [];
  treasury_contract_id = [];
}

abbrev typed : Session
typed = record {
  page = handle_blur FieldName.title (
      handle_change FieldName.description (js "text")
        (handle_change FieldName.title (js "Fund") open_form));
  in_flight = none;
}

abbrev entered : FormState
entered = record {
  title = js "Fund";
  description = js "text";
  quorum = js "1000";
  duration = js "86400";
}

abbrev finished : Session
finished = record {
  page =
      end_submit (submission tenths net environment config (js "G") entered)
        (submit tenths typed).page;
  in_flight = none;
}

finished_test : finished.page.successes ≡ 7 ∷ []
unfolding end_submit submission transaction arguments rounded sign_and_send hash_of
    no_simulation_error confirm submit begin_submit handle_blur handle_change open_form with_value
    has_any field_error text_error quorum_error duration_error js ◌===◌ starts_with trim trim_start
    is_space split of_decimal digits_value
finished_test = refl
