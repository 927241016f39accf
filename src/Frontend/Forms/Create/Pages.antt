-- ===== src/Frontend/Forms/Create/Pages.antt =====
-- The state of frontend/src/components/CreateProposalForm.tsx and its handlers.
use cosmosvote.Prelude.{
  ℕ, ◌≡◌, Option, none, some, Bool, true, false, List, [], ◌∷◌, ◌++◌, JsString, js, if◌then◌else◌,
  Result, ok, throws,
}
use cosmosvote.Frontend.Access.{Environment, NetworkConfig}
use cosmosvote.Frontend.Forms.{FieldName, FormState, with_value, put, Doubles}
use cosmosvote.Frontend.Forms.Create.{initial_form, field_error, has_any}
use cosmosvote.Frontend.Forms.Create.Submission.{
  Network, Ending, confirmed, cancelled, bad_key, submission,
}

-- The component's state, and the calls of `onSuccess`.
pub record Page : Type 0 where
  pub form : FormState
  pub touched : FieldName → Bool
  pub submitting : Bool
  pub submit_error : Option JsString
  pub successes : List ℕ

unfoldable pub open_form : Page
open_form = record {
  form = initial_form;
  touched = λ name. false;
  submitting = false;
  submit_error = none;
  successes = [];
}

unfoldable pub handle_change : FieldName → JsString → Page → Page
unfolding with_value
handle_change name value p = record p { form = with_value name value p.form }

unfoldable pub handle_blur : FieldName → Page → Page
unfolding put
handle_blur name p = record p { touched = put name true p.touched }

-- `handleSubmit` up to its first `await`.
unfoldable pub begin_submit : {W : Type 0} → Doubles W → Page → Page
unfolding has_any field_error
begin_submit d p =
    let shown : Page = record p { touched = λ name. true } in
    if has_any (field_error d p.form)
    then shown
    else record shown { submitting = true; submit_error = none }

-- The rest of it, on the page as it is when the submission ends.
unfoldable pub end_submit : Result JsString Ending → Page → Page
end_submit (ok (confirmed id)) p = record p {
  successes = p.successes ++ id ∷ [];
  submitting = false;
}
end_submit (ok cancelled) p = record p {
  submit_error = some (js "Transaction signing cancelled.");
  submitting = false;
}
end_submit (ok bad_key) p = record p {
  submit_error = some (js "Invalid secret key. It must start with \"S\".");
  submitting = false;
}
end_submit (throws e) p = record p { submit_error = some e; submitting = false }

-- The error under a field.
unfoldable pub shown_error : {W : Type 0} → Doubles W → Page → FieldName → Option JsString
unfolding field_error
shown_error d p name = if p.touched name then field_error d p.form name else none

-- The page, and the form whose submission runs.
pub record Session : Type 0 where
  pub page : Page
  pub in_flight : Option FormState

unfoldable pub submit : {W : Type 0} → Doubles W → Session → Session
unfolding begin_submit
submit d s = record {
  page = begin_submit d s.page;
  in_flight = if has_any (field_error d s.page.form) then none else some s.page.form;
}

-- The form is opened and used. Its button is disabled while a submission runs. Each submission meets a
-- network of its own; those that have ended are listed with their networks and forms, in order.
module _ (S : Type 0) {W : Type 0} (d : Doubles W) (env : Environment) (config : NetworkConfig)
    (wallet : JsString) where
  pub data Reach : List (Network S × FormState) → Session → Type 0 where
    opened : Reach [] (record { page = open_form; in_flight = none })
    changed :
        {runs : List (Network S × FormState)} {s : Session} (name : FieldName) (value : JsString)
        → Reach runs s
        → Reach runs (record s { page = handle_change name value s.page })
    blurred :
        {runs : List (Network S × FormState)} {s : Session} (name : FieldName)
        → Reach runs s
        → Reach runs (record s { page = handle_blur name s.page })
    submitted :
        {runs : List (Network S × FormState)} {s : Session}
        → s.page.submitting ≡ false
        → Reach runs s
        → Reach runs (submit d s)
    ended :
        {runs : List (Network S × FormState)} {s : Session} (net : Network S) (form : FormState)
        → s.in_flight ≡ some form
        → Reach runs s
        → Reach (runs ++ (net, form) ∷ []) (record {
          page = end_submit (submission d net env config wallet form) s.page;
          in_flight = none;
        })
