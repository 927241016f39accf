-- ===== src/Frontend/Toast.antt =====
-- frontend/src/components/Toast.tsx: the hook with its toasts, their timers and the counter of the module.
pub mod Timers
mod Examples
use cosmosvote.Prelude.{
  ℕ, ◌+◌, not, List, [], ◌∷◌, ◌++◌, JsString, ltb, ◌==◌, if◌then◌else◌, select, any,
}

pub data ToastType : Type 0 where
  pending success error : ToastType

pub record Toast : Type 0 where
  pub id : ℕ
  pub type : ToastType
  pub message : JsString

-- `AUTO_DISMISS_MS`
unfoldable pub auto_dismiss_ms : ToastType → ℕ
auto_dismiss_ms pending = 0
auto_dismiss_ms success = 4000
auto_dismiss_ms error = 6000

-- `_nextId`, the toasts, and the keys of the map of timers in the order in which they were set.
pub record Hook : Type 0 where
  pub next_id : ℕ
  pub toasts : List Toast
  pub timers : List ℕ

unfoldable pub mounted_hook : Hook
mounted_hook = record { next_id = 1; toasts = []; timers = [] }

unfoldable pub dismiss : ℕ → Hook → Hook
dismiss id h = record h {
  toasts = select (λ t. not (t.id == id)) h.toasts;
  timers = select (λ n. not (n == id)) h.timers;
}

-- The hook behind the call, and the identifier that the call returns.
unfoldable pub show : ToastType → JsString → Hook → Hook × ℕ
unfolding auto_dismiss_ms
show type message h = (
  record {
    next_id = h.next_id + 1;
    toasts = h.toasts ++ record { id = h.next_id; type = type; message = message } ∷ [];
    timers = if ltb 0 (auto_dismiss_ms type) then h.timers ++ h.next_id ∷ [] else h.timers;
  },
  h.next_id,
)

-- A timer fires while it is set.
unfoldable pub fire : ℕ → Hook → Hook
unfolding dismiss
fire id h = if any (λ n. n == id) h.timers then dismiss id h else h

unfoldable pub unmount : Hook → Hook
unmount h = record h { timers = [] }

-- The hook in use, from its mounting to its end.
pub data Reach : Hook → Type 0 where
  mounted : Reach mounted_hook
  shown :
      {h : Hook} (type : ToastType) (message : JsString) → Reach h → Reach (show type message h).0
  dismissed : {h : Hook} (id : ℕ) → Reach h → Reach (dismiss id h)
  fired : {h : Hook} (id : ℕ) → Reach h → Reach (fire id h)
