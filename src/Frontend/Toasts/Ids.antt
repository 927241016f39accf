-- ===== src/Frontend/Toasts/Ids.antt =====
-- The identifiers of frontend/src/components/ToastContext.tsx.
use cosmosvote.Prelude.{
  ℕ, ◌+◌, ◌≤◌, ◌<◌, ◌≡◌, refl, ◌≢◌, inl, inr, not, List, [], ◌∷◌, append-nil, arith, ◌==◌,
  Bool-cases, select, any, select-append, All, All-append, All-select, HasDistinct,
  HasDistinct-select, HasDistinct-append_one,
}
use cosmosvote.Frontend.Toasts.{
  Draft, Toast, reducer, Provider, initial, notify, dismiss, render, expire, Reach, mounted,
  notified, dismissed, rerendered, expired,
}

-- Every toast, every timer and what was rendered lie below the next identifier.
abbrev pub IsBelow : ℕ → Toast → Type 0
IsBelow n t = t.id < n

abbrev pub IsSound : Provider → Type 0
IsSound p =
    HasDistinct (λ t. t.id) p.state.toasts
    × All (IsBelow p.state.next_id) p.state.toasts
    × (p.rendered_id ≤ p.state.next_id)

distinct_above : (n : ℕ) (ts : List Toast) → All (IsBelow n) ts → All (λ t. t.id ≢ n) ts
distinct_above n [] h = tt
distinct_above n (t ∷ ts) h = (λ e. omega arith, distinct_above n ts h.1)

IsBelow-mono : (m n : ℕ) (ts : List Toast) → m ≤ n → All (IsBelow m) ts → All (IsBelow n) ts
IsBelow-mono m n [] le h = tt
IsBelow-mono m n (t ∷ ts) le h = (omega arith, IsBelow-mono m n ts le h.1)

notify-IsSound : (draft : Draft) (p : Provider) → IsSound p → IsSound (notify draft p).1
unfolding notify reducer
notify-IsSound draft p (d, b, r) =
    let n = p.state.next_id in
    let toast : Toast = record { id = n; draft = draft } in
    (
      HasDistinct-append_one (λ t. t.id) p.state.toasts toast d (distinct_above n p.state.toasts b),
      All-append (IsBelow (n + 1)) p.state.toasts (toast ∷ [])
          (IsBelow-mono n (n + 1) p.state.toasts (omega arith) b) (omega arith, tt),
      omega arith,
    )

dismiss-IsSound : (id : ℕ) (p : Provider) → IsSound p → IsSound (dismiss id p)
unfolding dismiss reducer
dismiss-IsSound id p (d, b, r) = (
  HasDistinct-select (λ t. t.id) (λ t. not (t.id == id)) p.state.toasts d,
  All-select (IsBelow p.state.next_id) (λ t. not (t.id == id)) p.state.toasts b,
  r,
)

expire-IsSound : (id : ℕ) (p : Provider) → IsSound p → IsSound (expire id p)
unfolding expire dismiss
expire-IsSound id p h = elim (Bool-cases (any (λ t. t == id) p.timers)) [
  | inl e ↦ rw e (dismiss-IsSound id p h)
  | inr e ↦ rw e h
]

-- However toasts come and go, no two on the screen have the same identifier, all have one below that
-- of the next toast, and a callback's identifier is not above it.
pub Reach-HasUniqueIds :
    {p : Provider}
    → Reach p
    → HasDistinct (λ t. t.id) p.state.toasts
      × All (IsBelow p.state.next_id) p.state.toasts
      × (p.rendered_id ≤ p.state.next_id)
unfolding initial render
Reach-HasUniqueIds (mounted e) = rw e (tt, tt, omega arith)
Reach-HasUniqueIds (notified {p} draft r e) = rw e (notify-IsSound draft p (Reach-HasUniqueIds r))
Reach-HasUniqueIds (dismissed {p} id r e) = rw e (dismiss-IsSound id p (Reach-HasUniqueIds r))
Reach-HasUniqueIds (rerendered {p} r e) =
    let (d, b, k) = Reach-HasUniqueIds r in rw e (d, b, omega arith)
Reach-HasUniqueIds (expired {p} id r e) = rw e (expire-IsSound id p (Reach-HasUniqueIds r))

without_fresh :
    (n : ℕ) (ts : List Toast) → All (IsBelow n) ts → select (λ t. not (t.id == n)) ts ≡ ts
without_fresh n [] h = refl
without_fresh n (t ∷ ts) h = ground (arith, without_fresh n ts h.1)

-- A toast that is shown by a callback of the latest render and then dismissed by the identifier
-- that `notify` returned leaves the toasts as they were.
pub dismiss-notify :
    {p : Provider} (draft : Draft)
    → Reach p
    → p.rendered_id ≡ p.state.next_id
    → (dismiss (notify draft p).0 (notify draft p).1).state.toasts ≡ p.state.toasts
unfolding dismiss notify reducer
dismiss-notify {p} draft r fresh =
    let n = p.state.next_id in
    let (d, b, k) = Reach-HasUniqueIds r in
    rw
      (
        fresh,
        select-append (λ t. not (t.id == n)) p.state.toasts (record { id = n; draft = draft } ∷ []),
        without_fresh n p.state.toasts b,
      )
      (ground (arith, append-nil p.state.toasts))
