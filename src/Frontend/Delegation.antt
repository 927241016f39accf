-- ===== src/Frontend/Delegation.antt =====
-- The state of frontend/src/components/DelegationPanel.tsx and its handlers. The panel shows a delegation as
-- soon as it is entered; nothing is submitted to the contract.
pub mod Entries
mod Examples
use cosmosvote.Prelude.{
  ℕ, ◌-◌, Option, none, some, Bool, true, false, not, ◌||◌, [], ◌++◌, JsString, js, ◌===◌, truthy,
  starts_with, trim, ltb, if◌then◌else◌, length, take, drop,
}

pub data PanelState : Type 0 where
  idle delegating revoking : PanelState

pub record Panel : Type 0 where
  pub wallet_address : JsString
  pub current_delegate : Option JsString
  pub loading : Bool
  pub panel_state : PanelState
  pub delegate_input : JsString
  pub error : Option JsString
  pub success : Option JsString

-- A wallet's panel, and the answer of `fetchDelegation`, which is null on an error.
pub open_panel : JsString → Panel
open_panel wallet_address = record {
  wallet_address = wallet_address;
  current_delegate = none;
  loading = true;
  panel_state = idle;
  delegate_input = [];
  error = none;
  success = none;
}

pub delegation_arrives : Option JsString → Panel → Panel
delegation_arrives delegate p = record p { current_delegate = delegate; loading = false }

-- The buttons are there only in some states: each handler is the identity where its button is not.
pub set_delegating : Panel → Panel
set_delegating p = from p.loading p.panel_state p.current_delegate
  where
    from : Bool → PanelState → Option JsString → Panel
    from false idle none = record p { panel_state = delegating; success = none }
    from _ _ _ = p

pub set_revoking : Panel → Panel
set_revoking p = from p.loading p.panel_state p.current_delegate
  where
    from : Bool → PanelState → Option JsString → Panel
    from false idle (some delegate) =
        if truthy delegate then record p { panel_state = revoking; success = none } else p
    from _ _ _ = p

pub input_changes : JsString → Panel → Panel
input_changes value p = record p { delegate_input = trim value }

pub cancel : Panel → Panel
cancel p = from p.panel_state
  where
    from : PanelState → Panel
    from idle = p
    from delegating = record p { panel_state = idle; delegate_input = []; error = none }
    from revoking = record p { panel_state = idle; error = none }

-- `s.slice(0, n)` and `s.slice(-n)`
pub slice_start : ℕ → JsString → JsString
slice_start n s = take n s

pub slice_end : ℕ → JsString → JsString
slice_end n s = drop (length s - n) s

pub delegated_message : JsString → JsString
unfolding slice_start slice_end
delegated_message input =
    js "Voting power delegated to " ++ slice_start 8 input ++ js "…" ++ slice_end 6 input ++ js "."

-- `!delegateInput.startsWith('G') || delegateInput.length < 56`
pub is_bad_address : JsString → Bool
is_bad_address input = not (starts_with input (js "G")) || ltb (length input) 56

pub refused : JsString → Panel → Panel
refused message p = record p { error = some message }

-- `setDelegateInput`, and what follows it, at the end of `handleDelegate`.
pub accepted : Panel → Panel
unfolding delegated_message
accepted p = record p {
  current_delegate = some p.delegate_input;
  delegate_input = [];
  panel_state = idle;
  error = none;
  success = some (delegated_message p.delegate_input);
}

pub handle_delegate : Panel → Panel
unfolding is_bad_address refused accepted
handle_delegate p =
    if is_bad_address p.delegate_input
    then refused (js "Enter a valid Stellar address (G…)") p
    else if p.delegate_input === p.wallet_address
    then refused (js "You cannot delegate to yourself.") p
    else accepted p

pub handle_revoke : Panel → Panel
handle_revoke p = record p {
  current_delegate = none;
  panel_state = idle;
  error = none;
  success = some (js "Delegation revoked. Voting power returned to your account.");
}
