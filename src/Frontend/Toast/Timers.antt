-- ===== src/Frontend/Toast/Timers.antt =====
-- The timers of frontend/src/components/Toast.tsx, against the toasts on the screen.
use cosmosvote.Prelude.{ℕ, ◌<◌, ◌≡◌, Bool, map, ltb, select, All, HasDistinct}
use cosmosvote.Frontend.Toast.{Toast, auto_dismiss_ms, Hook}

-- A toast that goes away by itself.
unfoldable pub is_timed : Toast → Bool
unfolding auto_dismiss_ms
is_timed t = ltb 0 (auto_dismiss_ms t.type)

abbrev IsBelow : ℕ → Toast → Type 0
IsBelow n t = t.id < n

abbrev pub IsTimed : Hook → Type 0
IsTimed h =
    (h.timers ≡ map (λ t. t.id) (select is_timed h.toasts))
    × HasDistinct (λ t. t.id) h.toasts
    × All (IsBelow h.next_id) h.toasts
