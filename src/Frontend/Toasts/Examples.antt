-- ===== src/Frontend/Toasts/Examples.antt =====
-- The theorems on frontend/src/components/ToastContext.tsx at concrete toasts.
use cosmosvote.Prelude.{◌+◌, ◌≤◌, ◌≡◌, refl, none, some, [], ◌∷◌, js, In, All, HasDistinct}
use cosmosvote.Frontend.Toasts.{
  pending, success, Draft, Provider, initial, notify, render, Reach, mounted, notified, rerendered,
}
use cosmosvote.Frontend.Toasts.Ids.{IsBelow, Reach-HasUniqueIds}
use cosmosvote.Frontend.Toasts.Stale.{expire_all, notify_twice}

abbrev saved : Draft
saved = record { type = success; message = js "Vote recorded"; tx_hash = some (js "ab12") }

abbrev signing : Draft
signing = record { type = pending; message = js "Waiting for the wallet"; tx_hash = none }

-- One pending toast on the screen, which has been rendered.
abbrev shown : Provider
shown = render (notify signing initial).1

Reach-shown : Reach shown
Reach-shown = rerendered (notified signing (mounted refl) refl) refl

Reach-HasUniqueIds_example :
    HasDistinct (λ t. t.id) shown.state.toasts
    × All (IsBelow shown.state.next_id) shown.state.toasts
    × (shown.rendered_id ≤ shown.state.next_id)
Reach-HasUniqueIds_example = Reach-HasUniqueIds Reach-shown

notify_twice_example :
    let one = notify signing (render shown) in
    let two = notify saved one.1 in
    (two.0 ≡ one.0)
    × In
        (record { id = shown.state.next_id + 1; draft = saved })
        (expire_all (1 ∷ 1 ∷ []) two.1).state.toasts
notify_twice_example = notify_twice signing saved (1 ∷ 1 ∷ []) Reach-shown
