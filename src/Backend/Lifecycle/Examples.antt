-- ===== src/Backend/Lifecycle/Examples.antt =====
-- The theorems on the loop of backend/src/notificationService.ts at concrete runs.
use cosmosvote.Prelude.{◌≤◌, refl, arith}
use cosmosvote.Backend.Lifecycle.{
  Loop, idle, tick, start, cleared, stop, tick_done, finishes, rest, more, Reach, fresh, next,
  started,
}
use cosmosvote.Backend.Lifecycle.Chains.{chains, chains-le_starts, restart_doubles}

abbrev running_once : Loop
running_once = start idle

Reach-running_once : Reach 1 running_once
Reach-running_once = started (fresh refl) refl

-- The service is started, its tick ends and its timer fires.
abbrev waiting : Loop
waiting = tick_done running_once

Reach-waiting : Reach 1 waiting
unfolding start tick idle
Reach-waiting = next Reach-running_once (finishes (omega arith) refl)

chains-le_starts_example : chains waiting ≤ 1
chains-le_starts_example = chains-le_starts Reach-waiting

restart_doubles_example : 2 ≤ chains (tick_done (start (stop running_once)))
unfolding start stop tick idle cleared
restart_doubles_example =
    restart_doubles Reach-running_once (omega arith)
      (more (finishes (omega arith) refl) (rest refl))
