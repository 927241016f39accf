-- ===== src/Frontend/Forms/Create.antt =====
-- frontend/src/components/CreateProposalForm.tsx: the form and its errors; the submission and the page are
-- in the modules below.
pub mod Submission
pub mod Pages
pub mod Confirmation
pub mod Sessions
use cosmosvote.Prelude.{
  ℕ, Bool, true, false, not, ◌||◌, Option, none, some, List, [], ◌∷◌, JsString, js, truthy, trim,
  ltb, if◌then◌else◌, length, Result, ok, throws, ℤ,
}
use cosmosvote.Frontend.Forms.{FieldName, FormState, Doubles}

abbrev pub initial_form : FormState
initial_form = record { title = []; description = []; quorum = js "1000"; duration = js "86400" }

abbrev pub presets : List (JsString × JsString)
presets =
    (js "1 day", js "86400")
    ∷ (js "3 days", js "259200")
    ∷ (js "7 days", js "604800")
    ∷ (js "14 days", js "1209600")
    ∷ (js "30 days", js "2592000")
    ∷ []

-- The errors of a title and of a description.
unfoldable pub text_error : ℕ → JsString → JsString → JsString → Option JsString
text_error limit required too_long text =
    if not (truthy (trim text))
    then some required
    else if ltb limit (length text)
    then some too_long
    else none

abbrev quorum_message : JsString
quorum_message = js "Quorum must be a positive number."

abbrev duration_message : JsString
duration_message = js "Duration must be between 60 seconds and 30 days."

abbrev pub or_range_error : Option ℤ → Result JsString ℤ
or_range_error none = throws (js "RangeError")
or_range_error (some k) = ok k

module _ {W : Type 0} (d : Doubles W) where
  unfoldable pub quorum_error : JsString → Option JsString
  quorum_error text =
      let q = d.number text in
      if not (truthy text) || d.is_nan q || d.le q (d.whole 0) then some quorum_message else none

  unfoldable pub duration_error : JsString → Option JsString
  duration_error text =
      let x = d.number text in
      if not (truthy text) || d.is_nan x || d.lt x (d.whole 60) || d.lt (d.whole 2592000) x
      then some duration_message
      else none

  unfoldable pub field_error : FormState → FieldName → Option JsString
  unfolding text_error
  field_error form FieldName.title =
      text_error 128 (js "Title is required.") (js "Title must be ≤ 128 characters.") form.title
  field_error form FieldName.description =
      text_error 1024 (js "Description is required.") (js "Description must be ≤ 1024 characters.")
        form.description
  field_error form FieldName.quorum = quorum_error form.quorum
  field_error form FieldName.duration = duration_error form.duration

  -- `BigInt(Math.round(Number(text)))`
  unfoldable pub rounded : JsString → Result JsString ℤ
  rounded text = or_range_error (d.round (d.number text))

-- `Object.keys(errors).length > 0`
abbrev pub is_present : Option JsString → Bool
is_present none = false
is_present (some message) = true

unfoldable pub has_any : (FieldName → Option JsString) → Bool
has_any errors =
    is_present (errors FieldName.title)
    || is_present (errors FieldName.description)
    || is_present (errors FieldName.quorum)
    || is_present (errors FieldName.duration)
