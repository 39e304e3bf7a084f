-- ===== src/Server/System/Tests.antt =====
-- Runs of the sample server with two workers.
use footprints_ev.Base.{◌≡◌, refl, false, some, [], ◌∷◌, arith}
use footprints_ev.Server.Sample.{server, server-IsServing, server-IsWatching, workers-IsRing}
use footprints_ev.Server.System.{System, idle, connect, round, run}
use footprints_ev.Server.System.Safe.{Places, IsSafe}
use footprints_ev.Server.System.Traffic.{Moves, InOrder, view}
use footprints_ev.Server.System.Runs.{run-IsSafe, run-InOrder}
use footprints_ev.Server.System.Observe.{trace}
use footprints_ev.Server.System.Drain.{Ends, drains}

abbrev system : System
system = record { server = server; hands = idle ∷ idle ∷ [] }

abbrev places : Places
places = record { fds = 5 ∷ []; spare = []; free = []; queued = 200 ∷ []; waiting = []; lost = [] }

system-IsSafe : IsSafe system places
system-IsSafe = record {
  serving = server-IsServing;
  watching = server-IsWatching;
  ring = workers-IsRing;
  unlocked = refl;
  on = refl;
  tasks = refl;
  flag = refl;
}

-- a client connects, and the dispatcher hands a message over
run-IsSafe_example :
    (u : System) × (m : Places) × (run (connect 30 false (some 7) ∷ round ∷ []) system ≡ some u)
    × IsSafe u m
    × Moves
        (view places system.hands)
        (trace (connect 30 false (some 7) ∷ round ∷ []) system)
        (view m u.hands)
run-IsSafe_example =
    run-IsSafe (connect 30 false (some 7) ∷ round ∷ []) system places system-IsSafe
      (((λ e. omega arith), refl, (λ e. cc)), λ u did. (tt, λ v did'. tt))

run-InOrder_example :
    (u : System) × (m : Places) × (run (connect 30 false (some 7) ∷ round ∷ []) system ≡ some u)
    × IsSafe u m
    × InOrder
        (view places system.hands)
        (trace (connect 30 false (some 7) ∷ round ∷ []) system)
        (view m u.hands)
run-InOrder_example =
    run-InOrder (connect 30 false (some 7) ∷ round ∷ []) system places system-IsSafe
      (((λ e. omega arith), refl, (λ e. cc)), λ u did. (tt, λ v did'. tt))

drains_example : Ends 1 system (record places { queued = []; free = 200 ∷ [] })
drains_example = drains system places 1 system-IsSafe refl ((λ e. omega arith), tt)
