-- ===== src/Frontend/Forms/Create/Sessions.antt =====
-- The runs of frontend/src/components/CreateProposalForm.tsx: which submissions succeed.
use cosmosvote.Prelude.{
  ℕ, ◌≡◌, Option, none, some, Bool, true, false, List, [], ◌∷◌, JsString, All, concat_map, Result,
  ok,
}
use cosmosvote.Frontend.Access.{Environment, NetworkConfig}
use cosmosvote.Frontend.Forms.{FormState, Doubles}
use cosmosvote.Frontend.Forms.Create.{field_error, has_any}
use cosmosvote.Frontend.Forms.Create.Submission.{Network, Ending, confirmed, submission}
use cosmosvote.Frontend.Forms.Create.Pages.{Session}

-- The identifier that a submission which has ended was confirmed with, if it was.
abbrev pub id_of : Result JsString Ending → List ℕ
id_of (ok (confirmed id)) = id ∷ []
id_of _ = []

module _ (S : Type 0) {W : Type 0} (d : Doubles W) (env : Environment) (config : NetworkConfig)
    (wallet : JsString) where
  abbrev pub ids_of : List (Network S × FormState) → List ℕ
  ids_of = concat_map (λ r. id_of (submission d r.0 env config wallet r.1))

  abbrev pub IsFlying : Bool → Option FormState → Type 0
  IsFlying b none = b ≡ false
  IsFlying b (some form) = (b ≡ true) × (has_any (field_error d form) ≡ false)

  abbrev pub AreValid : List (Network S × FormState) → Type 0
  AreValid = All (λ r. has_any (field_error d r.1) ≡ false)

  -- The page shows a submission just while one runs, the forms that were submitted are valid, and those
  -- that the callback was called with are the identifiers of the submissions that were confirmed.
  abbrev pub IsSound : List (Network S × FormState) → Session → Type 0
  IsSound runs s =
      IsFlying s.page.submitting s.in_flight × AreValid runs × (s.page.successes ≡ ids_of runs)
