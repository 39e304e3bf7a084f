-- ===== src/Server/System/Runs.antt =====
-- Every run of the server.
use footprints_ev.Base.{◌≡◌, refl, sym, subst, some, List, [], ◌∷◌}
use footprints_ev.Server.System.{System, Event, step, run}
use footprints_ev.Server.System.Observe.{trace, trace-step}
use footprints_ev.Server.System.Safe.{Places, IsSafe, Allowed}
use footprints_ev.Server.System.Steps.{step-IsSafe}
use footprints_ev.Server.System.Traffic.{Moves, here, then_move, view, InOrder, Moves-InOrder}

-- each event is allowed where its turn comes
abbrev pub Allows : List Event → System → Type 0
Allows [] w = Unit {0}
Allows (e ∷ es) w = Allowed e w × ((u : System) → step e w ≡ some u → Allows es u)

-- A safe server takes every run of allowed events to its end, whatever their order, and is safe there: no callback, round
-- or task faults, blocks or loops for ever; each buffer that was allocated is free, queued, with one worker, with one
-- pending task, or turned away by the thread pool; each watcher is spare or that of one open descriptor. What each step
-- does to the messages, as observed in the systems before and after it, is a move of the specification: so no buffer is
-- turned away but by a round whose message found the thread pool full. Allowed means that `malloc` hands out memory in no use, that `accept` does not return 20480, that
-- `recv` is on an open connection and writes 256 bytes at most, and that no worker is at a message of 255 characters.
pub run-IsSafe :
    (es : List Event) (w : System) (l : Places)
    → IsSafe w l
    → Allows es w
    → (u : System) × (m : Places) × (run es w ≡ some u)
      × IsSafe u m
      × Moves (view l w.hands) (trace es w) (view m u.hands)
run-IsSafe [] w l g h = (w, l, refl, g, here)
run-IsSafe (e ∷ es) w l g (now, later) =
    let (u, m, did, g', move) = step-IsSafe e w l g now in
    let (v, n, rest, g'', moves) = run-IsSafe es u m g' (later u did) in
    (
      v,
      n,
      rw did rest,
      g'',
      subst (λ ls. Moves (view l w.hands) ls (view n v.hands)) (sym (trace-step e es w u did))
          (then_move move moves),
    )

-- In every run of allowed events from a safe server, as observed step by step, messages are offered to the thread pool in the order of their
-- arrival, those queued before the run first, and tasks begin in the order in which the thread pool accepted them,
-- those pending before the run first: what arrived or was accepted and has not moved on is still
-- queued or pending in the server that the run ends in.
pub run-InOrder :
    (es : List Event) (w : System) (l : Places)
    → IsSafe w l
    → Allows es w
    → (u : System) × (m : Places) × (run es w ≡ some u)
      × IsSafe u m
      × InOrder (view l w.hands) (trace es w) (view m u.hands)
run-InOrder es w l g h =
    let (u, m, did, g', moves) = run-IsSafe es w l g h in (u, m, did, g', Moves-InOrder moves)
