-- ===== src/Scripts/AdminMonitor/Turns.antt =====
-- The polls of scripts/admin_monitor.js where each is answered before the timer runs again.
use cosmosvote.Prelude.{asked_for, serve, ℕ, zero, suc, List, [], ◌∷◌, if◌then◌else◌}
use cosmosvote.Frontend.Events.{topics}
use cosmosvote.Scripts.AdminMonitor.{Record, Alert, Monitor, start_monitor, begin_poll, end_poll}
use cosmosvote.Scripts.AdminMonitor.Watched.{Published, is_watched}

-- A poll with its answer from a server that pages through a log, and so many of them.
unfoldable pub turn : List Record → Monitor → Monitor
turn log m = end_poll (serve (λ r. r.id) log (asked_for m.cursor)) [] [] (begin_poll m)

unfoldable pub turns : List Record → ℕ → Monitor
turns log zero = start_monitor
turns log (suc k) = turn log (turns log k)

-- The alerts that a log asks for.
abbrev pub alerts_to : List Published → List Alert
alerts_to [] = []
alerts_to (x ∷ xs) =
    let later = alerts_to xs in
    if is_watched x.event
    then record { subtype = (topics x.event).1; event_id = x.id; ledger = x.ledger } ∷ later
    else later
