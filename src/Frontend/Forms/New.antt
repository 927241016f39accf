-- ===== src/Frontend/Forms/New.antt =====
-- frontend/src/components/NewProposalForm.tsx: the validation, the page's state and its handlers.
pub mod Errors
pub mod Submitting
mod Examples
use cosmosvote.Prelude.{
  ℕ, ◌≡◌, Option, none, some, Bool, true, false, not, ◌&&◌, ◌||◌, List, [], ◌∷◌, ◌++◌, JsString, js,
  truthy, trim, ltb, if◌then◌else◌, length, Result, ok, throws,
}
use cosmosvote.Frontend.Forms.{FieldName, FormState, value_of, with_value, put, Doubles}

abbrev pub initial : FormState
initial = record { title = []; description = []; quorum = []; duration = [] }

-- The parameters are JavaScript's numbers and `toLocaleString`, which the locale of the browser decides.
module _ {W : Type 0} (d : Doubles W) (to_locale_string : ℕ → JsString) where
  duration_message : JsString
  duration_message =
      js "Duration must be "
      ++ to_locale_string 60
      ++ js "–"
      ++ to_locale_string 2592000
      ++ js " seconds."

  unfoldable pub validate_field : FieldName → JsString → Option JsString
  unfolding duration_message
  validate_field FieldName.title value =
      if not (truthy (trim value))
      then some (js "Title is required.")
      else if ltb 128 (length value)
      then some (js "Title must be ≤ 128 characters.")
      else none
  validate_field FieldName.description value =
      if not (truthy (trim value))
      then some (js "Description is required.")
      else if ltb 1024 (length value)
      then some (js "Description must be ≤ 1024 characters.")
      else none
  validate_field FieldName.quorum value =
      let q = d.number value in
      if not (truthy (trim value))
      then some (js "Quorum is required.")
      else if d.is_nan q || not (d.is_integer q) || d.le q (d.whole 0)
      then some (js "Quorum must be a positive whole number.")
      else none
  validate_field FieldName.duration value =
      let x = d.number value in
      if not (truthy (trim value))
      then some (js "Duration is required.")
      else if d.is_nan x || not (d.is_integer x) || d.lt x (d.whole 60) || d.lt (d.whole 2592000) x
      then some duration_message
      else none

  unfoldable pub validate_all : FormState → FieldName → Option JsString
  validate_all form name = validate_field name (value_of form name)

-- `Object.keys(errors)[0]`, for the errors that `validateAll` has put in the order of the fields.
unfoldable pub first_of : Option JsString → FieldName → Option FieldName → Option FieldName
first_of none name rest = rest
first_of (some e) name rest = some name

unfoldable pub first_key : (FieldName → Option JsString) → Option FieldName
unfolding first_of
first_key errors = first_of (errors FieldName.title) FieldName.title (
    first_of (errors FieldName.description) FieldName.description (
      first_of (errors FieldName.quorum) FieldName.quorum
        (first_of (errors FieldName.duration) FieldName.duration none)))

-- The component's state, the field that has the focus, and the calls of `onSuccess` and `onError`.
pub record Page : Type 0 where
  pub form : FormState
  pub errors : FieldName → Option JsString
  pub touched : FieldName → Bool
  pub submit_attempted : Bool
  pub submitting : Bool
  pub focus : Option FieldName
  pub successes : List ℕ
  pub reported : List JsString

unfoldable pub opened_page : Page
opened_page = record {
  form = initial;
  errors = λ name. none;
  touched = λ name. false;
  submit_attempted = false;
  submitting = false;
  focus = none;
  successes = [];
  reported = [];
}

module _ {W : Type 0} (d : Doubles W) (to_locale_string : ℕ → JsString) where
  unfoldable pub revalidate_field : FieldName → JsString → Page → Page
  unfolding put validate_field
  revalidate_field name value p = record p {
    errors = put name (validate_field d to_locale_string name value) p.errors;
  }

  unfoldable pub handle_change : FieldName → JsString → Page → Page
  unfolding with_value revalidate_field
  handle_change name value p =
      let q : Page = record p { form = with_value name value p.form } in
      if p.touched name || p.submit_attempted then revalidate_field name value q else q

  unfoldable pub handle_blur : FieldName → Page → Page
  unfolding put value_of revalidate_field
  handle_blur name p =
      let q : Page = record p { touched = put name true p.touched } in
      revalidate_field name (value_of p.form name) q

  -- `isFormValid` of all errors: the first of them is missing.
  abbrev proceed : Option FieldName → Page → Page
  proceed none p = record p { submitting = true }
  proceed (some name) p = record p { focus = some name }

  -- `handleSubmit` up to its `await`.
  unfoldable pub begin_submit : Page → Page
  unfolding validate_all first_key
  begin_submit p =
      let all_errors = validate_all d to_locale_string p.form in
      proceed (first_key all_errors) (record p { submit_attempted = true; errors = all_errors })

  unfoldable pub form_has_errors : FormState → Bool
  unfolding validate_all first_key
  form_has_errors form = is_some (first_key (validate_all d to_locale_string form))
    where
      is_some : Option FieldName → Bool
      is_some none = false
      is_some (some name) = true

  -- Whether the button is disabled.
  unfoldable pub is_disabled : Page → Bool
  unfolding form_has_errors
  is_disabled p = p.submitting || (p.submit_attempted && form_has_errors p.form)

  unfoldable pub show_error : Page → FieldName → Bool
  show_error p name = (p.touched name || p.submit_attempted) && is_present (p.errors name)
    where
      is_present : Option JsString → Bool
      is_present none = false
      is_present (some e) = truthy e

-- The end of `handleSubmit`: `onSuccess` returns for the number, or throws a message.
unfoldable pub end_submit : ℕ → Result JsString (Unit {0}) → Page → Page
end_submit id (ok _) p = record p { successes = p.successes ++ id ∷ [] }
end_submit id (throws e) p = record p { reported = p.reported ++ e ∷ []; submitting = false }

module _ {W : Type 0} (d : Doubles W) (to_locale_string : ℕ → JsString) where
  -- The form is opened and used; a submission ends while it runs.
  pub data Reach : Page → Type 0 where
    opened : Reach opened_page
    changed :
        {p : Page} (name : FieldName) (value : JsString)
        → Reach p
        → Reach (handle_change d to_locale_string name value p)
    blurred :
        {p : Page} (name : FieldName) → Reach p → Reach (handle_blur d to_locale_string name p)
    submitted :
        {p : Page}
        → is_disabled d to_locale_string p ≡ false
        → Reach p
        → Reach (begin_submit d to_locale_string p)
    ended :
        {p : Page} (id : ℕ) (answer : Result JsString (Unit {0}))
        → p.submitting ≡ true
        → Reach p
        → Reach (end_submit id answer p)
