-- ===== src/Backend/Lifecycle.antt =====
-- `start`, `stop` and the `tick` of backend/src/notificationService.ts, as steps. A tick is a poll with
-- its deliveries: it is in flight until they are done, and then sets a timer. Timers are numbered in
-- the order in which they are set.
pub mod Chains
pub mod Stopping
mod Examples
use cosmosvote.Prelude.{
  ℕ, suc, ◌+◌, ◌-◌, ◌<◌, ◌≡◌, Option, none, some, Bool, true, false, not, List, [], ◌∷◌, ◌==◌,
  if◌then◌else◌, select, In,
}

-- `running`, `timer`, the ticks in flight and the timers that are due to fire.
pub record Loop : Type 0 where
  pub running : Bool
  pub timer : Option ℕ
  pub in_flight : ℕ
  pub pending : List ℕ
  pub next_timer : ℕ

pub idle : Loop
idle = record { running = false; timer = none; in_flight = 0; pending = []; next_timer = 0 }

-- `tick` up to its first wait.
pub tick : Loop → Loop
tick s = if not s.running then s else record s { in_flight = s.in_flight + 1 }

pub start : Loop → Loop
start s = tick (record s { running = true })

pub clear : ℕ → List ℕ → List ℕ
clear id = select (λ t. not (t == id))

-- `if (this.timer) clearTimeout(this.timer)`
pub cleared : Option ℕ → List ℕ → List ℕ
cleared none pending = pending
cleared (some id) pending = clear id pending

pub stop : Loop → Loop
stop s = record s { running = false; pending = cleared s.timer s.pending }

-- The rest of a tick, behind `await this.runOnce()`.
pub tick_done : Loop → Loop
tick_done s = record s {
  in_flight = s.in_flight - 1;
  timer = some s.next_timer;
  pending = s.next_timer ∷ s.pending;
  next_timer = s.next_timer + 1;
}

-- A timer fires and calls `tick`.
pub fire : ℕ → Loop → Loop
fire id s = tick (record s { pending = clear id s.pending })

-- What may happen to a service that is left to itself.
pub data Runs (s : Loop) (t : Loop) : Type 0 where
  finishes : 0 < s.in_flight → t ≡ tick_done s → Runs s t
  fires : (id : ℕ) → In id s.pending → t ≡ fire id s → Runs s t

-- A number of such steps.
pub data RunsFor : ℕ → Loop → Loop → Type 0 where
  rest : {s t : Loop} → s ≡ t → RunsFor 0 s t
  more : {n : ℕ} {s t u : Loop} → Runs s t → RunsFor n t u → RunsFor (suc n) s u

-- The states that are reached with a number of starts.
pub data Reach : ℕ → Loop → Type 0 where
  fresh : {s : Loop} → s ≡ idle → Reach 0 s
  next : {n : ℕ} {s t : Loop} → Reach n s → Runs s t → Reach n t
  started : {n : ℕ} {s t : Loop} → Reach n s → t ≡ start s → Reach (suc n) t
  stopped : {n : ℕ} {s t : Loop} → Reach n s → t ≡ stop s → Reach n t
