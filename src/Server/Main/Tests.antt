-- ===== src/Server/Main/Tests.antt =====
-- A small machine, and the theorems at it.
use footprints_ev.Base.Distinct.{All}
use footprints_ev.Server.Connections.{accept_func_cb}
use footprints_ev.Server.Tasks.{dispatch}
use footprints_ev.Server.System.Drain.{Short}
use footprints_ev.Server.Main.Ends.{entered, IsOrderly, Returns, Hangs, main-ends}
use footprints_ev.Base.{
  false, ap, sym, subst, ◌≢◌, ◌⊎◌, ◌≡◌, refl, true, some, none, List, [], ◌∷◌, arith, replicate,
}
use footprints_ev.Server.{Server, Run, ok, fault, blocked, endless}
use footprints_ev.Mq
use footprints_ev.Pool
use footprints_ev.ThreadPool
use footprints_ev.Server.Main.{
  Machine, Start, serves, exits, poolless, faults, set_up, pool_size, tear_down,
}
use footprints_ev.Server.Main.SetUp.{IsReady, nothing, eight, set_up-IsSafe}
use footprints_ev.Server.Main.TearDown.{Released, tear_down-releases}
use footprints_ev.Server.Sample.{
  message, server, server-IsServing, server-IsWatching, workers-IsRing,
}
use footprints_ev.Server.System.{
  System, Hand, Event, connect, round, idle, decoding, returned_to, run, run_from, step,
}
use footprints_ev.Server.System.Safe.{Places, IsSafe, held_by}
use footprints_ev.ThreadPool.{success, Task}
use footprints_ev.ThreadPool.Destroy.{all_resources}
use footprints_ev.ThreadPool.Enqueue.{task_of, all_ok}

abbrev slots : List Task
slots = replicate 8 (task_of 0 0)

abbrev machine : Machine
machine = record {
  queue = record {
    heap = record { live = λ p. true; next = λ p. 0; prev = λ p. 0 };
    list = 1;
    size = 7;
    locked = true;
  };
  ev_heap = record { size = λ p. none; next = λ p. 0 };
  obd_heap = record { size = λ p. none; next = λ p. 0 };
  obds = λ p. message;
  io_size = 48;
  ev_head = some 10;
  obd_head = some 20;
  resources = all_resources slots;
  threads = replicate pool_size true;
}

machine-IsReady : IsReady machine 10 20 slots
machine-IsReady = record {
  sentinel = refl;
  ev_empty = λ p. refl;
  obd_empty = λ p. refl;
  ev_at = refl;
  obd_at = refl;
  ev_ne = λ e. omega arith;
  obd_ne = λ e. omega arith;
  room = refl;
  resources = refl;
  threads = refl;
}

set_up-IsSafe_example :
    (s : Server) × (set_up machine ≡ serves s)
    × (s.thread_pool.thread_count ≡ pool_size)
    × (s.thread_pool.started ≡ pool_size)
    × IsSafe (record { server = s; hands = eight }) nothing
set_up-IsSafe_example = set_up-IsSafe machine 10 20 slots machine-IsReady

-- the sample server with a worker at its message
abbrev at_work : System
at_work = record {
  server = record server {
    obd_mq = record server.obd_mq {
      heap = record { live = λ p. true; next = λ p. p; prev = λ p. p };
      size = 0;
    };
  };
  hands = idle ∷ decoding 200 ∷ [];
}

abbrev places : Places
places = record { fds = 5 ∷ []; spare = []; free = []; queued = []; waiting = []; lost = [] }

at_work-IsSafe : IsSafe at_work places
at_work-IsSafe = record {
  serving = record {
    pool = server-IsServing.pool;
    queue = record {
      next_chain = refl;
      prev_chain = refl;
      apart = tt;
      distinct = tt;
      head_live = refl;
      live = tt;
      counted = refl;
      unlocked = refl;
    };
    cells = server-IsServing.cells;
    sentinel = server-IsServing.sentinel;
    messages = server-IsServing.messages;
  };
  watching = record {
    pool = server-IsWatching.pool;
    distinct = server-IsWatching.distinct;
    inside = server-IsWatching.inside;
    empty = server-IsWatching.empty;
  };
  ring = workers-IsRing;
  unlocked = refl;
  on = refl;
  tasks = refl;
  flag = refl;
}

tear_down-releases_example :
    (t : Server) × (tear_down 3 at_work.hands at_work.server ≡ ok success t)
    × Released at_work.server.obd_pool (200 ∷ []) [] t.obd_pool
    × Released at_work.server.ev_pool [] (21 ∷ []) t.ev_pool
    × (t.obd_mq.locked ≡ true)
tear_down-releases_example =
    tear_down-releases at_work places 2 at_work-IsSafe refl ((λ e. omega arith), tt) (omega arith)
      (omega arith)

abbrev served : Start → Server
served (serves s) = s
served (exits n) = server
served poolless = server
served faults = server

-- the server that the machine enters
abbrev fresh : Server
fresh = served (set_up machine)

fresh-room : fresh.ev_pool.heap.size 30 ≡ none
unfolding set_up Mq.mq_init Mq.list_init Mq.set_next Mq.set_prev Pool.create ThreadPool.create
fresh-room = refl

-- a client connects, and the dispatcher finds nothing
abbrev events : List Event
events = connect 30 false (some 7) ∷ round ∷ []

same_hands :
    {A : Type 0} (hs : List Hand) (r : Run A) (u : System)
    → returned_to hs r ≡ some u
    → u.hands ≡ hs
same_hands hs (ok a s) u e = cc
same_hands hs fault u e = absurd (cc)
same_hands hs blocked u e = absurd (cc)
same_hands hs endless u e = absurd (cc)

round-hands :
    {A : Type 0} (hs : List Hand) (r : Run A) (u : System)
    → run_from (round ∷ []) (returned_to hs r) ≡ some u
    → u.hands ≡ hs
unfolding step
round-hands hs (ok a s) u e = same_hands hs (dispatch all_ok s) u e
round-hands hs fault u e = absurd (cc)
round-hands hs blocked u e = absurd (cc)
round-hands hs endless u e = absurd (cc)

events-hands : (s : Server) (u : System) → run events (entered s) ≡ some u → u.hands ≡ eight
unfolding step
events-hands s u e = round-hands eight (accept_func_cb (some 30) false (some 7) s) u e

events-IsOrderly : (s : Server) → set_up machine ≡ serves s → IsOrderly events (entered s)
events-IsOrderly s e = record {
  allowed = (
    (
      (λ z. omega arith),
      subst (λ t. t.ev_pool.heap.size 30 ≡ none) (ap served e) fresh-room,
      (λ z. cc),
    ),
    λ u did. (tt, λ v did'. tt),
  );
  short =
      λ u did. subst (λ hs. All (Short u.server.obds) (held_by hs)) (sym (events-hands s u did)) tt;
}

main-ends_example :
    (s : Server) × (set_up machine ≡ serves s)
    × (w : System) × (l : Places) × (run events (entered s) ≡ some w)
    × IsSafe w l
    × (((l.queued ≡ []) × Returns w) ⊎ ((l.queued ≢ []) × Hangs w))
main-ends_example = main-ends machine 10 20 slots events machine-IsReady events-IsOrderly
