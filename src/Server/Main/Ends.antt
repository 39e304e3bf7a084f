-- ===== src/Server/Main/Ends.antt =====
-- `main` as a whole: the set-up, a run of the server, and the end after an interrupt.
use footprints_ev.Base.{
  ℕ, suc, ◌+◌, ◌≡◌, ◌≢◌, ◌⊎◌, refl, some, List, [], ◌∷◌, ◌++◌, arith, length, inl, inr,
}
use footprints_ev.Base.Distinct.{All}
use footprints_ev.Pool.{Ptr}
use footprints_ev.Server.{Server, ok, blocked, break_all}
use footprints_ev.Server.Main.{Machine, serves, set_up, interrupted}
use footprints_ev.Server.Main.SetUp.{IsReady, nothing, eight, set_up-IsSafe}
use footprints_ev.Server.Main.TearDown.{tear_down-releases, tear_down-blocked}
use footprints_ev.Server.System.{System, Event, run}
use footprints_ev.Server.System.Drain.{Short}
use footprints_ev.Server.System.Runs.{Allows, run-IsSafe}
use footprints_ev.Server.System.Safe.{Places, IsSafe, held_by}
use footprints_ev.ThreadPool.{Task, success}

-- the server when `main` enters `ev_run`
abbrev pub entered : Server → System
entered s = record { server = s; hands = eight }

-- what the surroundings promise of the events up to the interrupt
pub record IsOrderly (es : List Event) (w : System) : Type 0 where
  pub allowed : Allows es w
  pub short : (u : System) → run es w ≡ some u → All (Short u.server.obds) (held_by u.hands)

-- `main` returns, or never does, whatever the fuel
abbrev pub Returns : System → Type 0
Returns w = (fuel : ℕ) × (t : Server) × (interrupted fuel w.hands w.server ≡ ok success t)

abbrev pub Hangs : System → Type 0
Hangs w = (fuel : ℕ) → interrupted (suc fuel) w.hands w.server ≡ blocked

-- the server with the loop of libev stopped
abbrev stopping : System → System
stopping w = record w { server = record w.server { log = w.server.log ++ (break_all ∷ []) } }

stopping-IsSafe : (w : System) (l : Places) → IsSafe w l → IsSafe (stopping w) l
stopping-IsSafe w l g = record {
  serving = record {
    pool = g.serving.pool;
    queue = g.serving.queue;
    cells = g.serving.cells;
    sentinel = g.serving.sentinel;
    messages = g.serving.messages;
  };
  watching = record {
    pool = g.watching.pool;
    distinct = g.watching.distinct;
    inside = g.watching.inside;
    empty = g.watching.empty;
  };
  ring = g.ring;
  unlocked = g.unlocked;
  on = g.on;
  tasks = g.tasks;
  flag = g.flag;
}

end_cases :
    (w : System) (l : Places) (queued : List Ptr)
    → IsSafe w l
    → All (Short w.server.obds) (held_by w.hands)
    → l.queued ≡ queued
    → ((l.queued ≡ []) × Returns w) ⊎ ((l.queued ≢ []) × Hangs w)
unfolding interrupted
end_cases w l [] g short e =
    let fuel = length (held_by w.hands) + length l.free + length l.spare in
    let (t, run, _, _, _) =
      tear_down-releases (stopping w) l fuel (stopping-IsSafe w l g) e short (omega arith)
        (omega arith) in
    inl (e, (suc fuel, t, run))
end_cases w l (x ∷ xs) g short e = inr (
  (λ none_queued. cc),
  λ fuel. tear_down-blocked (stopping w) l fuel x xs (stopping-IsSafe w l g) e,
)

-- `main` on a machine that is ready gets to `ev_run`, takes every run of allowed events up to an interrupt, where no worker
-- is at a message of 255 characters then, and is safe there. It then returns where no message is queued, and where one
-- is it waits for ever on the mutex that its dispatcher holds.
pub main-ends :
    (m : Machine) (ev obd : Ptr) (slots : List Task) (es : List Event)
    → IsReady m ev obd slots
    → ((s : Server) → set_up m ≡ serves s → IsOrderly es (entered s))
    → (s : Server) × (set_up m ≡ serves s)
      × (w : System) × (l : Places) × (run es (entered s) ≡ some w)
      × IsSafe w l
      × (((l.queued ≡ []) × Returns w) ⊎ ((l.queued ≢ []) × Hangs w))
main-ends m ev obd slots es ready orderly =
    let (s, up, _, _, safe) = set_up-IsSafe m ev obd slots ready in
    let o = orderly s up in
    let (w, l, did, g, _) = run-IsSafe es (entered s) nothing safe o.allowed in
    (s, up, w, l, did, g, end_cases w l l.queued g (o.short w did) refl)
