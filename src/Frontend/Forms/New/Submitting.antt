-- ===== src/Frontend/Forms/New/Submitting.antt =====
-- What frontend/src/components/NewProposalForm.tsx submits.
use cosmosvote.Prelude.{
  trim_start, ℕ, ◌<◌, ◌≡◌, refl, ◌↔◌, ◌≢◌, ◌⊎◌, inl, inr, Option, none, some, true, false, [], ◌∷◌,
  arith, JsString, truthy, trim,
}
use cosmosvote.Frontend.Forms.{FieldName, FormState, value_of, Doubles}
use cosmosvote.Frontend.Forms.New.{
  validate_field, validate_all, first_of, first_key, Page, proceed, begin_submit,
}
use cosmosvote.Frontend.Forms.Create.{
  field_error, has_any, text_error, quorum_error, duration_error,
}

-- The place of a field in the form.
pub position : FieldName → ℕ
position FieldName.title = 0
position FieldName.description = 1
position FieldName.quorum = 2
position FieldName.duration = 3

module _ {W : Type 0} (d : Doubles W) (l : ℕ → JsString) where
  -- A form whose fields are valid.
  abbrev pub IsValid : FormState → Type 0
  IsValid form = (name : FieldName) → validate_field d l name (value_of form name) ≡ none

  first_key-none :
      (errors : FieldName → Option JsString)
      → (first_key errors ≡ none) ↔ ((n : FieldName) → errors n ≡ none)
  unfolding first_key first_of
  first_key-none errors = (
    forth,
    λ h.
        rw (h FieldName.title, h FieldName.description, h FieldName.quorum, h FieldName.duration)
          refl,
  )
    where
      forth : first_key errors ≡ none → (n : FieldName) → errors n ≡ none
      forth h FieldName.title = ground arith
      forth h FieldName.description = ground arith
      forth h FieldName.quorum = ground arith
      forth h FieldName.duration = ground arith

  first_key-some :
      (errors : FieldName → Option JsString) (n : FieldName)
      → first_key errors ≡ some n
      → (errors n ≢ none) × ((m : FieldName) → position m < position n → errors m ≡ none)
  unfolding first_key first_of position
  first_key-some errors n h = (ground arith, before n h)
    where
      before :
          (n : FieldName)
          → first_key errors ≡ some n
          → (m : FieldName) → position m < position n
          → errors m ≡ none
      before FieldName.title h m lt = absurd (omega arith)
      before n h m lt = ground arith

  trim-truthy : (s : JsString) → truthy (trim s) ≡ true → truthy s ≡ true
  unfolding trim trim_start
  trim-truthy [] h = h
  trim-truthy (c ∷ s) h = refl

  title_accepted :
      (form : FormState)
      → validate_field d l FieldName.title form.title ≡ none
      → field_error d form FieldName.title ≡ none
  unfolding validate_field field_error text_error
  title_accepted form h = ground arith

  description_accepted :
      (form : FormState)
      → validate_field d l FieldName.description form.description ≡ none
      → field_error d form FieldName.description ≡ none
  unfolding validate_field field_error text_error
  description_accepted form h = ground arith

  quorum_accepted :
      (form : FormState)
      → validate_field d l FieldName.quorum form.quorum ≡ none
      → field_error d form FieldName.quorum ≡ none
  unfolding validate_field field_error quorum_error
  quorum_accepted form h = ground (arith, trim-truthy form.quorum)

  duration_accepted :
      (form : FormState)
      → validate_field d l FieldName.duration form.duration ≡ none
      → field_error d form FieldName.duration ≡ none
  unfolding validate_field field_error duration_error
  duration_accepted form h = ground (arith, trim-truthy form.duration)

  -- A form whose fields NewProposalForm finds valid has no errors in CreateProposalForm.
  pub IsValid-has_any : (form : FormState) → IsValid form → has_any (field_error d form) ≡ false
  unfolding has_any value_of
  IsValid-has_any form h =
      rw
        (
          title_accepted form (h FieldName.title),
          description_accepted form (h FieldName.description),
          quorum_accepted form (h FieldName.quorum),
          duration_accepted form (h FieldName.duration),
        )
        refl

  -- A submission goes ahead exactly if every field is valid; otherwise the first field that is not valid has
  -- the focus, and nothing is sent. Either way the errors of all fields are kept.
  pub begin_submit_outcome :
      (p : Page)
      → let q = begin_submit d l p in
        ((n : FieldName) → q.errors n ≡ validate_field d l n (value_of p.form n))
        × ((IsValid p.form × (q.submitting ≡ true) × (q.focus ≡ p.focus))
            ⊎ ((n : FieldName) × (validate_field d l n (value_of p.form n) ≢ none)
                × ((m : FieldName)
                    → position m < position n
                    → validate_field d l m (value_of p.form m) ≡ none)
                × (q.focus ≡ some n)
                × (q.submitting ≡ p.submitting)))
  unfolding begin_submit validate_all
  begin_submit_outcome p = from (first_key (validate_all d l p.form)) refl
    where
      from :
          (o : Option FieldName)
          → first_key (validate_all d l p.form) ≡ o
          → let q =
              proceed d l o
                (record p { submit_attempted = true; errors = validate_all d l p.form }) in
            ((n : FieldName) → q.errors n ≡ validate_field d l n (value_of p.form n))
            × ((IsValid p.form × (q.submitting ≡ true) × (q.focus ≡ p.focus))
                ⊎ ((n : FieldName) × (validate_field d l n (value_of p.form n) ≢ none)
                    × ((m : FieldName)
                        → position m < position n
                        → validate_field d l m (value_of p.form m) ≡ none)
                    × (q.focus ≡ some n)
                    × (q.submitting ≡ p.submitting)))
      from none e = (λ n. refl, inl ((first_key-none (validate_all d l p.form)).0 e, refl, refl))
      from (some n) e =
          let (wrong, before) = first_key-some (validate_all d l p.form) n e in
          (λ n. refl, inr (n, wrong, before, refl, refl))
