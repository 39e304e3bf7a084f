-- ===== src/Server/Main/SetUp.antt =====
-- `main` sets up a safe server.
use footprints_ev.Base.{
  ◌≡◌, ◌≢◌, refl, true, false, some, none, List, [], arith, length, replicate, ne→==_false, subst,
  ◌==◌,
}
use footprints_ev.Mq.IsQueue.{mq_init-IsQueue}
use footprints_ev.Pool.{Ptr, null, Heap, MemoryPool, allocate, head_size}
use footprints_ev.Pool.IsPool.{IsPool, create-IsPool}
use footprints_ev.Server.{Server}
use footprints_ev.Server.Main.{Machine, serves, globals, set_up, pool_size, obd_size}
use footprints_ev.Mq.IsQueue.{result}
use footprints_ev.Server.System.{idle, Hand}
use footprints_ev.Server.System.Safe.{Places, IsSafe}
use footprints_ev.ThreadPool.{Task}
use footprints_ev.ThreadPool.Destroy.{create-IsGood, all_resources}

-- what `main` needs of the machine
pub record IsReady (m : Machine) (ev obd : Ptr) (slots : List Task) : Type 0 where
  pub sentinel : m.queue.heap.live m.queue.list ≡ true
  pub ev_empty : (p : Ptr) → m.ev_heap.size p ≡ none
  pub obd_empty : (p : Ptr) → m.obd_heap.size p ≡ none
  pub ev_at : m.ev_head ≡ some ev
  pub obd_at : m.obd_head ≡ some obd
  pub ev_ne : ev ≢ null
  pub obd_ne : obd ≢ null
  pub room : length slots ≡ pool_size
  pub resources : m.resources ≡ all_resources slots
  pub threads : m.threads ≡ replicate pool_size true

abbrev pub nothing : Places
nothing = record { fds = []; spare = []; free = []; queued = []; waiting = []; lost = [] }

abbrev pub eight : List Hand
eight = replicate pool_size idle

head-test :
    (h : Heap) (pool : MemoryPool) (bs used : List Ptr)
    → IsPool h pool bs used
    → (pool.head == null) ≡ false
head-test h pool bs used v = ne→==_false pool.head null λ e.
    let live : h.size null ≡ some head_size =
      subst (λ p. h.size p ≡ some head_size) e v.head_live in
    let gone = v.null_free in cc

-- On a machine with nothing allocated yet, with memory for the heads of the pools and for eight tasks, and where each
-- call of `threadpool_create` succeeds, `main` gets to `ev_run` with a thread pool that counts eight threads, all of
-- them started, and, with eight idle workers, the server is safe: no connection, no buffer, no message, no task.
pub set_up-IsSafe :
    (m : Machine) (ev obd : Ptr) (slots : List Task)
    → IsReady m ev obd slots
    → (s : Server) × (set_up m ≡ serves s)
      × (s.thread_pool.thread_count ≡ pool_size)
      × (s.thread_pool.started ≡ pool_size)
      × IsSafe (record { server = s; hands = eight }) nothing
unfolding set_up
set_up-IsSafe m ev obd slots r =
    let (_, q, init, (queue, _)) =
      result (mq_init-IsQueue (record m.queue { locked = false }) r.sentinel refl) in
    let (evs, ev_made, ev_pool, _) = create-IsPool m.ev_heap ev m.io_size r.ev_empty r.ev_ne in
    let (obds, obd_made, obd_pool, _) =
      create-IsPool m.obd_heap obd obd_size r.obd_empty r.obd_ne in
    let (pool, made, threads, on, none_left, good) =
      create-IsGood pool_size pool_size slots (omega arith) r.room in
    let evs_head = head-test (allocate m.ev_heap ev head_size) evs [] [] ev_pool in
    let obds_head = head-test (allocate m.obd_heap obd head_size) obds [] [] obd_pool in
    (
      globals m q (record { heap = allocate m.ev_heap ev head_size; pool = evs })
          (record { heap = allocate m.obd_heap obd head_size; pool = obds }) pool,
      rw (init, r.ev_at, ev_made, evs_head)
          (rw (r.obd_at, obd_made, obds_head) (rw (r.resources, r.threads, made) refl)),
      threads,
      good.counted,
      record {
        serving = record {
          pool = obd_pool;
          queue = queue;
          cells = tt;
          sentinel = tt;
          messages = tt;
        };
        watching = record { pool = ev_pool; distinct = tt; inside = tt; empty = λ fd o. refl };
        ring = good.ring;
        unlocked = good.lock_free;
        on = on;
        tasks = none_left;
        flag = refl;
      },
    )
