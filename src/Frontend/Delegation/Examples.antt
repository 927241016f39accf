-- ===== src/Frontend/Delegation/Examples.antt =====
-- The theorem on frontend/src/components/DelegationPanel.tsx at a concrete entry.
use cosmosvote.Prelude.{◌≡◌, refl, none, js, trim, trim_start, is_space}
use cosmosvote.Frontend.Delegation.{
  delegating, Panel, open_panel, delegation_arrives, set_delegating, input_changes,
}

abbrev entered : Panel
entered =
    input_changes (js " GDEF ") (set_delegating (delegation_arrives none (open_panel (js "GABC"))))

entered_test : (entered.panel_state ≡ delegating) × (entered.delegate_input ≡ js "GDEF")
unfolding input_changes set_delegating delegation_arrives open_panel trim trim_start is_space js
entered_test = (refl, refl)
