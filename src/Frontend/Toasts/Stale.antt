-- ===== src/Frontend/Toasts/Stale.antt =====
-- Two toasts from one render of frontend/src/components/ToastContext.tsx.
use cosmosvote.Prelude.{
  ℕ, ◌+◌, ◌≤◌, ◌<◌, ◌≡◌, refl, inl, inr, true, not, List, [], ◌∷◌, arith, ◌==◌, Bool-cases, any, In,
  select-In, All, In-append_right,
}
use cosmosvote.Frontend.Toasts.{
  Draft, Toast, reducer, Provider, initial, is_final, notify, dismiss, render, remove_one, expire,
  Reach, mounted, notified, dismissed, rerendered, expired,
}
use cosmosvote.Frontend.Toasts.Ids.{Reach-HasUniqueIds}

-- The timers that are set are all for identifiers below a bound.
abbrev pub TimersBelow : ℕ → Provider → Type 0
TimersBelow n p = All (λ t. t < n) p.timers

below_mono : (m n : ℕ) (ts : List ℕ) → m ≤ n → All (λ t. t < m) ts → All (λ t. t < n) ts
below_mono m n [] le h = tt
below_mono m n (t ∷ ts) le h = (omega arith, below_mono m n ts le h.1)

All-remove_one :
    (n id : ℕ) (ts : List ℕ) → All (λ t. t < n) ts → All (λ t. t < n) (remove_one id ts)
unfolding remove_one
All-remove_one n id [] h = tt
All-remove_one n id (t ∷ ts) h = ground (arith, All-remove_one n id ts h.1)

TimersBelow-expire : (n id : ℕ) (p : Provider) → TimersBelow n p → TimersBelow n (expire id p)
unfolding expire
TimersBelow-expire n id p h = elim (Bool-cases (any (λ t. t == id) p.timers)) [
  | inl e ↦ rw e (All-remove_one n id p.timers h)
  | inr e ↦ rw e h
]

TimersBelow-notify :
    (draft : Draft) (p : Provider) (n : ℕ)
    → p.rendered_id < n
    → TimersBelow n p
    → TimersBelow n (notify draft p).1
unfolding notify
TimersBelow-notify draft p n r h = elim (Bool-cases (is_final draft.type)) [
  | inl e ↦ rw e (r, h)
  | inr e ↦ rw e h
]

next_id-expire : (id : ℕ) (p : Provider) → (expire id p).state.next_id ≡ p.state.next_id
unfolding expire reducer
next_id-expire id p = elim (Bool-cases (any (λ t. t == id) p.timers)) [
  | inl e ↦ rw e refl
  | inr e ↦ rw e refl
]

bound_notify :
    (p : Provider) (draft : Draft)
    → p.rendered_id ≤ p.state.next_id
    → TimersBelow p.state.next_id p
    → TimersBelow (notify draft p).1.state.next_id (notify draft p).1
unfolding notify reducer
bound_notify p draft k h =
    let n = p.state.next_id in
    TimersBelow-notify draft p (n + 1) (omega arith) (below_mono n (n + 1) p.timers (omega arith) h)

Reach-TimersBelow : {p : Provider} → Reach p → TimersBelow p.state.next_id p
unfolding initial render dismiss reducer
Reach-TimersBelow (mounted e) = rw e tt
Reach-TimersBelow (notified {p} draft r e) =
    rw e (bound_notify p draft (Reach-HasUniqueIds r).2 (Reach-TimersBelow r))
Reach-TimersBelow (dismissed {p} id r e) = rw e (Reach-TimersBelow r)
Reach-TimersBelow (rerendered {p} r e) = rw e (Reach-TimersBelow r)
Reach-TimersBelow (expired {p} id r e) =
    rw (e, next_id-expire id p) (TimersBelow-expire p.state.next_id id p (Reach-TimersBelow r))

abbrev pub expire_all : List ℕ → Provider → Provider
expire_all [] p = p
expire_all (id ∷ ids) p = expire_all ids (expire id p)

-- The identifier of a timer that is set lies below the bound.
set_below : (n id : ℕ) (ts : List ℕ) → All (λ t. t < n) ts → any (λ t. t == id) ts ≡ true → id < n
set_below n id [] h e = cc
set_below n id (t ∷ ts) h e = ground (arith, set_below n id ts h.1)

-- A toast that no timer is for stays when a timer runs out.
In-expire :
    (t : Toast) (id : ℕ) (p : Provider)
    → TimersBelow t.id p
    → In t p.state.toasts
    → In t (expire id p).state.toasts
unfolding expire reducer
In-expire t id p h m = elim (Bool-cases (any (λ x. x == id) p.timers)) [
  | inl e ↦
      let lower = set_below t.id id p.timers h e in
      rw e (select-In (λ x. not (x.id == id)) t p.state.toasts m (ground arith))
  | inr e ↦ rw e m
]

In-expire_all :
    (ids : List ℕ) (t : Toast) (p : Provider)
    → TimersBelow t.id p
    → In t p.state.toasts
    → In t (expire_all ids p).state.toasts
In-expire_all [] t p h m = m
In-expire_all (id ∷ ids) t p h m =
    In-expire_all ids t (expire id p) (TimersBelow-expire t.id id p h) (In-expire t id p h m)

-- Two toasts that callbacks of one render show get the same identifier from `notify`, and the second
-- is on the screen still when any timers have run out, also if neither toast is pending.
pub notify_twice :
    {p : Provider} (first second : Draft) (ids : List ℕ)
    → Reach p
    → let one = notify first (render p) in
      let two = notify second one.1 in
      (two.0 ≡ one.0)
      × In (record { id = p.state.next_id + 1; draft = second }) (expire_all ids two.1).state.toasts
unfolding notify render reducer
notify_twice {p} first second ids r =
    let n = p.state.next_id in
    let one = notify first (render p) in
    let toast : Toast = record { id = n + 1; draft = second } in
    let quiet = below_mono n (n + 1) p.timers (omega arith) (Reach-TimersBelow r) in
    let quiet_one = TimersBelow-notify first (render p) (n + 1) (omega arith) quiet in
    (
      refl,
      In-expire_all ids toast (notify second one.1).1
          (TimersBelow-notify second one.1 (n + 1) (omega arith) quiet_one)
          (In-append_right toast one.1.state.toasts (toast ∷ []) (inl refl)),
    )
