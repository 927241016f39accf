-- ===== src/Frontend/Toast/Examples.antt =====
-- The theorem on frontend/src/components/Toast.tsx after a few calls.
use cosmosvote.Prelude.{◌≡◌, refl, [], ◌∷◌, map, js}
use cosmosvote.Frontend.Toast.{
  pending, success, error, auto_dismiss_ms, Hook, mounted_hook, dismiss, show, fire,
}

abbrev used : Hook
used =
    dismiss 1
      (show error (js "Vote failed")
        (show success (js "Voted") (show pending (js "Submitting") mounted_hook).0).0).0

used_test : ((fire 2 used).timers ≡ 3 ∷ []) × (map (λ t. t.id) (fire 2 used).toasts ≡ 3 ∷ [])
unfolding fire dismiss show mounted_hook auto_dismiss_ms
used_test = (refl, refl)
