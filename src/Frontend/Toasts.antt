-- ===== src/Frontend/Toasts.antt =====
-- The provider of frontend/src/components/ToastContext.tsx: the reducer, and `notify` and `dismiss`
-- with the timers that they set. A callback sees the state of the render that made it.
pub mod Ids
pub mod Stale
mod Examples
use cosmosvote.Prelude.{
  ℕ, ◌+◌, ◌≡◌, Option, Bool, true, false, not, List, [], ◌∷◌, ◌++◌, JsString, ◌==◌, if◌then◌else◌,
  select, any,
}

pub data ToastType : Type 0 where
  pending success error : ToastType

-- `Omit<Toast, 'id'>`
pub record Draft : Type 0 where
  pub type : ToastType
  pub message : JsString
  pub tx_hash : Option JsString

pub record Toast : Type 0 where
  pub id : ℕ
  pub draft : Draft

pub record ToastState : Type 0 where
  pub toasts : List Toast
  pub next_id : ℕ

pub data Action : Type 0 where
  add : Draft → Action
  remove : ℕ → Action

pub reducer : ToastState → Action → ToastState
reducer state (add draft) = record {
  toasts = state.toasts ++ record { id = state.next_id; draft = draft } ∷ [];
  next_id = state.next_id + 1;
}
reducer state (remove id) = record state { toasts = select (λ t. not (t.id == id)) state.toasts }

-- The provider: its state, the `nextId` that the last render saw, and the timers that will remove a toast.
pub record Provider : Type 0 where
  pub state : ToastState
  pub rendered_id : ℕ
  pub timers : List ℕ

pub initial : Provider
initial = record { state = record { toasts = []; next_id = 0 }; rendered_id = 0; timers = [] }

-- `type !== 'pending'`
pub is_final : ToastType → Bool
is_final pending = false
is_final success = true
is_final error = true

pub notify : Draft → Provider → ℕ × Provider
unfolding reducer is_final
notify draft p =
    let id = p.rendered_id in
    (
      id,
      record {
        state = reducer p.state (add draft);
        rendered_id = p.rendered_id;
        timers = if is_final draft.type then id ∷ p.timers else p.timers;
      },
    )

pub dismiss : ℕ → Provider → Provider
unfolding reducer
dismiss id p = record p { state = reducer p.state (remove id) }

pub render : Provider → Provider
render p = record p { rendered_id = p.state.next_id }

pub remove_one : ℕ → List ℕ → List ℕ
remove_one id [] = []
remove_one id (x ∷ xs) = if x == id then xs else x ∷ remove_one id xs

-- The callback of a timer, where one is set for the toast.
pub expire : ℕ → Provider → Provider
unfolding reducer remove_one
expire id p =
    if any (λ t. t == id) p.timers
    then record p { state = reducer p.state (remove id); timers = remove_one id p.timers }
    else p

pub data Reach : Provider → Type 0 where
  mounted : {p : Provider} → p ≡ initial → Reach p
  notified : {p q : Provider} (draft : Draft) → Reach p → q ≡ (notify draft p).1 → Reach q
  dismissed : {p q : Provider} (id : ℕ) → Reach p → q ≡ dismiss id p → Reach q
  rerendered : {p q : Provider} → Reach p → q ≡ render p → Reach q
  expired : {p q : Provider} (id : ℕ) → Reach p → q ≡ expire id p → Reach q
