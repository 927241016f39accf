-- ===== src/Frontend/Forms/New/Errors.antt =====
-- The errors that frontend/src/components/NewProposalForm.tsx keeps, against the text in its fields.
use cosmosvote.Prelude.{
  ℕ, ◌≡◌, refl, Option, none, some, true, ◌||◌, arith, JsString, if◌then◌else◌, Result, ok, throws,
}
use cosmosvote.Frontend.Forms.{FieldName, FormState, value_of, with_value, same_name, put, Doubles}
use cosmosvote.Frontend.Forms.New.{
  validate_field, validate_all, first_key, Page, opened_page, revalidate_field, handle_change,
  handle_blur, proceed, begin_submit, end_submit, Reach, opened, changed, blurred, submitted, ended,
}

-- The value of a field after a change of one.
value-with_value :
    (a b : FieldName) (v : JsString) (f : FormState)
    → value_of (with_value a v f) b ≡ (if same_name a b then v else value_of f b)
unfolding value_of with_value same_name
value-with_value a b v f = ground arith

same_name→≡ : (a b : FieldName) → same_name a b ≡ true → a ≡ b
unfolding same_name
same_name→≡ a b h = ground arith

module _ {W : Type 0} (d : Doubles W) (l : ℕ → JsString) where
  -- What the page should keep for a field: its error once it is touched or a submission was tried.
  pub expected : Page → FieldName → Option JsString
  expected p n =
      if p.touched n || p.submit_attempted then validate_field d l n (value_of p.form n) else none

  abbrev IsCurrent : Page → Type 0
  IsCurrent p = (n : FieldName) → p.errors n ≡ expected p n

  change-IsCurrent :
      (name : FieldName) (value : JsString) (p : Page)
      → IsCurrent p
      → IsCurrent (handle_change d l name value p)
  unfolding handle_change revalidate_field put expected
  change-IsCurrent name value p h n =
      ground (arith, h n, value-with_value name n value p.form, same_name→≡ name n)

  blur-IsCurrent : (name : FieldName) (p : Page) → IsCurrent p → IsCurrent (handle_blur d l name p)
  unfolding handle_blur revalidate_field put expected
  blur-IsCurrent name p h n = ground (arith, h n, same_name→≡ name n)

  submit-IsCurrent : (p : Page) → IsCurrent (begin_submit d l p)
  unfolding begin_submit validate_all expected
  submit-IsCurrent p n = from (first_key (validate_all d l p.form))
    where
      from :
          (o : Option FieldName)
          → (proceed d l o
                (record p { submit_attempted = true; errors = validate_all d l p.form })).errors
              n
            ≡ expected
                (proceed d l o
                  (record p { submit_attempted = true; errors = validate_all d l p.form }))
                n
      from none = ground arith
      from (some m) = ground arith

  end-IsCurrent :
      (id : ℕ) (r : Result JsString (Unit {0})) (p : Page)
      → IsCurrent p
      → IsCurrent (end_submit id r p)
  unfolding end_submit expected
  end-IsCurrent id (ok u) p h n = h n
  end-IsCurrent id (throws e) p h n = h n

  -- However the form is used, the error that it keeps for a field is the one of the text now in it once the
  -- field is touched or a submission was tried, and none before.
  pub Reach-IsCurrent : {p : Page} → Reach d l p → (n : FieldName) → p.errors n ≡ expected p n
  unfolding expected opened_page
  Reach-IsCurrent opened n = refl
  Reach-IsCurrent (changed {p} name value r) n = change-IsCurrent name value p (Reach-IsCurrent r) n
  Reach-IsCurrent (blurred {p} name r) n = blur-IsCurrent name p (Reach-IsCurrent r) n
  Reach-IsCurrent (submitted {p} free r) n = submit-IsCurrent p n
  Reach-IsCurrent (ended {p} id answer busy r) n = end-IsCurrent id answer p (Reach-IsCurrent r) n
