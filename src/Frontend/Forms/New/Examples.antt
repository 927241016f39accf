-- ===== src/Frontend/Forms/New/Examples.antt =====
-- The theorems on frontend/src/components/NewProposalForm.tsx at concrete entries.
use cosmosvote.Prelude.{
  digits_value, trim_start, is_space, ℕ, ◌≡◌, refl, some, JsString, js, of_decimal, split, trim,
  ◌==◌, if◌then◌else◌,
}
use cosmosvote.Frontend.Forms.{FieldName, FormState, value_of, with_value, same_name}
use cosmosvote.Frontend.Forms.Examples.{tenths}
use cosmosvote.Frontend.Forms.New.{
  Page, validate_field, opened_page, handle_change, handle_blur, Reach, opened, changed, blurred,
}
use cosmosvote.Frontend.Forms.New.Errors.{expected, Reach-IsCurrent}
use cosmosvote.Frontend.Forms.New.Submitting.{IsValid}

-- `toLocaleString` of the two limits, in English.
abbrev english : ℕ → JsString
english n = if n == 60 then js "60" else js "2,592,000"

abbrev typed : Page
typed =
    handle_change tenths english FieldName.quorum (js "0.5")
      (handle_blur tenths english FieldName.quorum opened_page)

typed-Reach : Reach tenths english typed
typed-Reach = changed FieldName.quorum (js "0.5") (blurred FieldName.quorum opened)

typed_test : typed.errors FieldName.quorum ≡ some (js "Quorum must be a positive whole number.")
unfolding handle_change handle_blur opened_page with_value same_name js trim trim_start is_space
    split of_decimal digits_value
typed_test = refl

Reach-IsCurrent_example :
    typed.errors FieldName.quorum ≡ expected tenths english typed FieldName.quorum
Reach-IsCurrent_example = Reach-IsCurrent tenths english typed-Reach FieldName.quorum

abbrev filled : FormState
filled = record { title = js "Fund"; description = js "text"; quorum = js "5"; duration = js "60" }

filled-IsValid : IsValid tenths english filled
unfolding validate_field value_of js trim trim_start is_space split of_decimal digits_value
filled-IsValid FieldName.title = refl
filled-IsValid FieldName.description = refl
filled-IsValid FieldName.quorum = refl
filled-IsValid FieldName.duration = refl
