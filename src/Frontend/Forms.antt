-- ===== src/Frontend/Forms.antt =====
-- The two forms for a new proposal, frontend/src/components/CreateProposalForm.tsx (Create, Submission)
-- and frontend/src/components/NewProposalForm.tsx (New): their four fields, and JavaScript's numbers as
-- far as they read them.
pub mod Create
pub mod Contract
pub mod New
mod Examples
use cosmosvote.Prelude.{
  ℕ, ◌≤◌, ◌≡◌, ◌⊎◌, Bool, true, false, Option, none, some, JsString, ℤ, pos, if◌then◌else◌,
}

pub data FieldName : Type 0 where
  title description quorum duration : FieldName

pub record FormState : Type 0 where
  pub title : JsString
  pub description : JsString
  pub quorum : JsString
  pub duration : JsString

-- `form[name]`
unfoldable pub value_of : FormState → FieldName → JsString
value_of form FieldName.title = form.title
value_of form FieldName.description = form.description
value_of form FieldName.quorum = form.quorum
value_of form FieldName.duration = form.duration

-- `{ ...form, [name]: value }`
unfoldable pub with_value : FieldName → JsString → FormState → FormState
with_value FieldName.title value form = record form { title = value }
with_value FieldName.description value form = record form { description = value }
with_value FieldName.quorum value form = record form { quorum = value }
with_value FieldName.duration value form = record form { duration = value }

unfoldable pub same_name : FieldName → FieldName → Bool
same_name FieldName.title FieldName.title = true
same_name FieldName.description FieldName.description = true
same_name FieldName.quorum FieldName.quorum = true
same_name FieldName.duration FieldName.duration = true
same_name _ _ = false

-- An object whose keys are the names of fields, with one of them set.
unfoldable pub put {ℓ} : {A : Type ℓ} → FieldName → A → (FieldName → A) → FieldName → A
put name a f other = if same_name name other then a else f other

-- The doubles: `Number(text)`, `isNaN`, `Number.isInteger`, an integer literal, `<`, `<=`, and
-- `BigInt(Math.round(x))`, which is none where it throws a RangeError.
pub record Doubles (W : Type 0) : Type 0 where
  pub number : JsString → W
  pub is_nan : W → Bool
  pub is_integer : W → Bool
  pub whole : ℕ → W
  pub lt : W → W → Bool
  pub le : W → W → Bool
  pub round : W → Option ℤ

-- `Math.round` keeps the order of a double and two integers below 2 ^ 53. What is above zero rounds to
-- an integer that is not negative, or is infinite.
pub record IsRounding {W : Type 0} (d : Doubles W) : Type 0 where
  pub round_between :
      (a b : ℕ) (x : W)
      → b ≤ 9007199254740991
      → d.is_nan x ≡ false
      → d.lt x (d.whole a) ≡ false
      → d.lt (d.whole b) x ≡ false
      → (n : ℕ) × (d.round x ≡ some (pos n)) × (a ≤ n) × (n ≤ b)
  pub round_above_zero :
      (x : W)
      → d.is_nan x ≡ false
      → d.le x (d.whole 0) ≡ false
      → (d.round x ≡ none) ⊎ ((n : ℕ) × (d.round x ≡ some (pos n)))
