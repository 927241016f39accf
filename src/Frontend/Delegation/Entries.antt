-- ===== src/Frontend/Delegation/Entries.antt =====
-- What frontend/src/components/DelegationPanel.tsx takes as a delegate.
use cosmosvote.Prelude.{
  ◌≤◌, ◌≡◌, refl, ◌≢◌, ◌⊎◌, inl, inr, none, some, Bool, true, false, [], arith, JsString, js, ◌===◌,
  ===_iff, differ, starts_with, if◌then◌else◌, length,
}
use cosmosvote.Frontend.Delegation.{idle, Panel, is_bad_address, refused, accepted, handle_delegate}

-- An address of the right shape that is not the wallet's own.
abbrev pub IsDelegate : Panel → JsString → Type 0
IsDelegate p input =
    (starts_with input (js "G") ≡ true) × (56 ≤ length input) × (input ≢ p.wallet_address)

bad_or_good :
    (input : JsString)
    → (is_bad_address input ≡ true)
      ⊎ ((is_bad_address input ≡ false) × (starts_with input (js "G") ≡ true) × (56 ≤ length input))
unfolding is_bad_address
bad_or_good input = ground arith

bad_not_good :
    (input : JsString)
    → is_bad_address input ≡ true
    → starts_with input (js "G") ≡ true
    → 56 ≤ length input
    → ⊥
unfolding is_bad_address
bad_not_good input h g l = ground arith

abbrev pub Outcome : Panel → Panel → Type 0
Outcome p q =
    (IsDelegate p p.delegate_input
      × ((q.current_delegate ≡ some p.delegate_input)
          × (q.delegate_input ≡ [])
          × (q.panel_state ≡ idle)
          × (q.error ≡ none)))
    ⊎ ((IsDelegate p p.delegate_input → ⊥)
        × ((q.current_delegate ≡ p.current_delegate)
            × (q.delegate_input ≡ p.delegate_input)
            × (q.panel_state ≡ p.panel_state)
            × (q.error ≢ none)))

refused-Outcome :
    (message : JsString) (p : Panel)
    → (IsDelegate p p.delegate_input → ⊥)
    → Outcome p (refused message p)
unfolding refused
refused-Outcome message p h = inr (h, (refl, refl, refl, λ e. cc))

accepted-Outcome : (p : Panel) → IsDelegate p p.delegate_input → Outcome p (accepted p)
unfolding accepted
accepted-Outcome p h = inl (h, (refl, refl, refl, refl))

-- The entered address becomes the delegate, and the form is emptied and closed, exactly if it begins
-- with G, has 56 characters or more and is not the wallet's own; otherwise the form stays as it is
-- and an error is shown.
pub handle_delegate-Outcome : (p : Panel) → Outcome p (handle_delegate p)
unfolding handle_delegate
handle_delegate-Outcome p = elim (bad_or_good p.delegate_input) [
  | inl bad ↦ rw bad (
      refused-Outcome (js "Enter a valid Stellar address (G…)") p
        (λ (g, l, _). bad_not_good p.delegate_input bad g l))
  | inr (fine, g, l) ↦ rw fine (own (p.delegate_input === p.wallet_address) refl g l)
]
  where
    own :
        (b : Bool)
        → (p.delegate_input === p.wallet_address) ≡ b
        → starts_with p.delegate_input (js "G") ≡ true
        → 56 ≤ length p.delegate_input
        → Outcome p (if b then refused (js "You cannot delegate to yourself.") p else accepted p)
    own true e g l =
        refused-Outcome (js "You cannot delegate to yourself.") p
          (λ (_, _, other). other ((===_iff p.delegate_input p.wallet_address).0 e))
    own false e g l = accepted-Outcome p (g, l, differ p.delegate_input p.wallet_address e)
