-- ===== src/Frontend/Polling/Examples.antt =====
-- The theorem on frontend/src/hooks/usePolling.ts at a concrete run.
use cosmosvote.Prelude.{◌≡◌, true, false, [], ◌∷◌}
use cosmosvote.Frontend.Polling.{delay, delay_lem}

delay_test : delay 15000 true (false ∷ false ∷ false ∷ []) ≡ 60000
delay_test = delay_lem 15000 true (false ∷ false ∷ false ∷ [])
