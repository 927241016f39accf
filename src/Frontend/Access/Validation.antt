-- ===== src/Frontend/Access/Validation.antt =====
-- What frontend/src/config.ts accepts.
use cosmosvote.Prelude.{
  ◌≡◌, refl, ◌↔◌, true, false, List, [], ◌∷◌, ◌++◌, arith, JsString, js, starts_with, length, ok,
}
use cosmosvote.Frontend.Access.{
  NetworkConfig, is_bad_id, id_error, governance_message, token_message, thrown_errors,
  validate_config,
}

-- A contract identifier of the right shape.
abbrev pub IsContractId : JsString → Type 0
IsContractId id = (starts_with id (js "C") ≡ true) × (length id ≡ 56)

good_id : (id : JsString) → (is_bad_id id ≡ false) ↔ IsContractId id
unfolding is_bad_id
good_id [] = ground arith
good_id (c ∷ s) = ground arith

thrown_ok : (errors : List JsString) → (thrown_errors errors ≡ ok tt) ↔ (errors ≡ [])
unfolding thrown_errors
thrown_ok [] = (λ e. refl, λ e. refl)
thrown_ok (s ∷ ss) = (λ e. cc, λ e. cc)

no_error : (id message : JsString) → (id_error id message ≡ []) ↔ (is_bad_id id ≡ false)
unfolding id_error
no_error id message = ground arith

accepted : (id message : JsString) → (id_error id message ≡ []) ↔ IsContractId id
accepted id message = (
  λ e. (good_id id).0 ((no_error id message).0 e),
  λ h. (no_error id message).1 ((good_id id).1 h),
)

append_none : (xs ys : List JsString) → (xs ++ ys ≡ []) ↔ ((xs ≡ []) × (ys ≡ []))
append_none [] ys = ground arith
append_none (x ∷ xs) ys = (λ e. cc, λ (e, _). cc)

both_good :
    (xs ys : List JsString) (P Q : Type 0)
    → (xs ≡ []) ↔ P
    → (ys ≡ []) ↔ Q
    → (thrown_errors (xs ++ ys) ≡ ok tt) ↔ (P × Q)
both_good xs ys P Q p q = (
  λ e. let (a, b) = (append_none xs ys).0 ((thrown_ok (xs ++ ys)).0 e) in (p.0 a, q.0 b),
  λ (a, b). (thrown_ok (xs ++ ys)).1 ((append_none xs ys).1 (p.1 a, q.1 b)),
)

-- The configuration is accepted exactly if both the governance and the token contract have an
-- identifier that begins with C and has 56 characters.
pub validate_config_iff :
    (config : NetworkConfig)
    → (validate_config config ≡ ok tt)
      ↔ (IsContractId config.governance_contract_id × IsContractId config.token_contract_id)
unfolding validate_config
validate_config_iff config =
    let g = config.governance_contract_id in
    let k = config.token_contract_id in
    both_good (id_error g governance_message) (id_error k token_message) (IsContractId g)
      (IsContractId k) (accepted g governance_message) (accepted k token_message)
