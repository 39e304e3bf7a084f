-- ===== src/Server/Main.antt =====
-- main-ev.c: `main`, from the set-up to `ev_run` and from there to the end, and `ev_signal_cb`.
pub mod SetUp
pub mod Locked
pub mod Joins
pub mod TearDown
pub mod Ends
mod Tests
use footprints_ev.Base.{
  ℕ, zero, suc, Bool, true, false, Option, none, some, List, [], ◌∷◌, ◌==◌, if◌then◌else◌,
  replicate,
}
use footprints_ev.Mq
use footprints_ev.Obd.{Obd}
use footprints_ev.Pool
use footprints_ev.Pool.{Ptr, null, Heap, MemoryPool}
use footprints_ev.Server.{
  break_all, emit, Server, Run, ok, fault, blocked, endless, Cmd, Blocks, pure, ◌>>=◌, ◌>>◌,
  with_ev, with_obd, from_free,
}
use footprints_ev.Server.System.{Hand, idle, decoding, left, System}
use footprints_ev.Server.Tasks.{dispatch, decode_thread}
use footprints_ev.ThreadPool
use footprints_ev.ThreadPool.{ThreadPool, Resources, Status, Created, thread_round, destroy_begin}
use footprints_ev.ThreadPool.Enqueue.{all_ok}
use footprints_ev.ThreadPool.World.{destroy_ok}

-- `sizeof(OBD_t)` where pointers have 8 bytes
abbrev pub obd_size : ℕ
obd_size = 536

-- the threads and the queue of `threadpool_create(8,8,0)`
abbrev pub pool_size : ℕ
pool_size = 8

-- What `main` finds: the memory, the queue, `sizeof(struct ev_io)`, where `malloc` puts
-- the heads of the two pools, and what the calls of `threadpool_create` return.
pub record Machine : Type 0 where
  pub queue : Mq.State
  pub ev_heap : Heap
  pub obd_heap : Heap
  pub obds : Ptr → Obd
  pub io_size : ℕ
  pub ev_head : Option Ptr
  pub obd_head : Option Ptr
  pub resources : Resources
  pub threads : List Bool

-- `serves`: `main` enters `ev_run`. `exits`: it returns. `poolless`: it goes on without a thread pool.
pub data Start : Type 0 where
  serves : Server → Start
  exits : ℕ → Start
  poolless : Start
  faults : Start

abbrev pub after_init : Mq.Run (Unit {0}) → (Mq.State → Start) → Start
after_init (Mq.ok u q) k = k q
after_init Mq.fault k = faults
after_init Mq.blocked k = faults

abbrev pub after_create : Pool.Run (Heap × MemoryPool) → (Blocks → Start) → Start
after_create (Pool.ok (h, pool)) k =
    if pool.head == null then exits 1 else k (record { heap = h; pool = pool })
after_create Pool.fault k = faults
after_create Pool.out_of_fuel k = faults

abbrev pub after_threads : Created → (ThreadPool → Start) → Start
after_threads (ThreadPool.created pool) k = k pool
after_threads ThreadPool.failed k = poolless
after_threads (ThreadPool.torn_down pool) k = poolless

-- the globals, where the set-up succeeds
abbrev pub globals : Machine → Mq.State → Blocks → Blocks → ThreadPool → Server
globals m queue ev obd pool = record {
  libev_list = λ fd. null;
  ev_pool = ev;
  obd_pool = obd;
  obds = m.obds;
  obd_mq = queue;
  thread_pool = pool;
  mq_flag = false;
  log = [];
}

-- `main` up to `ev_run`. `pthread_mutex_init` leaves the mutex free; what `pthread_create` and the socket calls return is never looked at.
unfoldable pub set_up : Machine → Start
set_up m = after_init (Mq.mq_init (record m.queue { locked = false })) λ queue.
    after_create (Pool.create m.ev_heap m.ev_head m.io_size) λ ev.
      after_create (Pool.create m.obd_heap m.obd_head obd_size) λ obd.
        after_threads (ThreadPool.create m.resources m.threads pool_size)
          λ pool. serves (globals m queue ev obd pool)

-- `ev_signal_cb`: `ev_break` makes `ev_run` return.
unfoldable pub ev_signal_cb : Cmd (Unit {0})
ev_signal_cb = emit break_all

-- `mq_flag = TRUE`, after `ev_signal_cb` has made `ev_run` return
abbrev pub raise_flag : Cmd (Unit {0})
raise_flag s = ok tt (record s { mq_flag = true })

-- the rounds of the dispatcher, which `pthread_join` waits for
unfoldable pub join_dispatcher : ℕ → Cmd (Unit {0})
join_dispatcher zero s = endless
join_dispatcher (suc fuel) s =
    (dispatch all_ok >>= λ stop. λ t. elim stop [ true ↦ ok tt t | false ↦ join_dispatcher fuel t ])
      s

abbrev pub from_destroy : Server → ThreadPool.Outcome (Status × ThreadPool) → Run Status
from_destroy s (ThreadPool.returned (status, pool)) = ok status (record s { thread_pool = pool })
from_destroy s ThreadPool.blocked = blocked

-- `threadpool_destroy(thread_pool, 0)` up to the joins
unfoldable pub begin_destroy : Cmd Status
begin_destroy s = from_destroy s (destroy_begin destroy_ok 0 s.thread_pool)

abbrev pub from_round : Server → ThreadPool.Round → Run (Unit {0})
from_round s ThreadPool.wait = blocked
from_round s (ThreadPool.leave pool) = ok tt (record s { thread_pool = pool })
from_round s (ThreadPool.take t pool) = blocked
from_round s ThreadPool.fault = fault

-- what a worker still does: it ends its task, and leaves the loop in the next round
abbrev pub leave_hand : Hand → Cmd (Unit {0})
leave_hand idle = λ s. from_round s (thread_round s.thread_pool)
leave_hand (decoding p) =
    decode_thread 128 p >>= λ out. λ s. from_round s (thread_round s.thread_pool)
leave_hand left = pure tt

-- the workers, which the joins of `threadpool_destroy` wait for
unfoldable pub join_hands : List Hand → Cmd (Unit {0})
join_hands [] = pure tt
join_hands (h ∷ hs) = leave_hand h >> join_hands hs

-- `threadpool_destroy` joins the workers only where all went well before.
abbrev pub join_after : Status → List Hand → Cmd (Unit {0})
join_after ThreadPool.success hands = join_hands hands
join_after ThreadPool.invalid hands = pure tt
join_after ThreadPool.lock_failure hands = pure tt
join_after ThreadPool.queue_full hands = pure tt
join_after ThreadPool.shutting_down hands = pure tt
join_after ThreadPool.thread_failure hands = pure tt

-- `DestroyMemoryPool` of each pool, whose pointer is NULL afterwards
abbrev pub from_pool : (Heap → Server) → Pool.Run (Heap × Option MemoryPool) → Run (Unit {0})
from_pool back (Pool.ok (h, pool)) = ok tt (back h)
from_pool back Pool.fault = fault
from_pool back Pool.out_of_fuel = endless

unfoldable pub destroy_obd : ℕ → Cmd (Unit {0})
destroy_obd fuel s =
    from_pool (λ h. with_obd s (record s.obd_pool { heap = h }))
      (Pool.destroy fuel s.obd_pool.heap s.obd_pool.pool)

unfoldable pub destroy_ev : ℕ → Cmd (Unit {0})
destroy_ev fuel s =
    from_pool (λ h. with_ev s (record s.ev_pool { heap = h }))
      (Pool.destroy fuel s.ev_pool.heap s.ev_pool.pool)

-- `main` from the return of `ev_run` on; the fuel is for the dispatcher and for the two free lists.
unfoldable pub tear_down : ℕ → List Hand → Cmd Status
unfolding join_dispatcher begin_destroy join_hands destroy_obd destroy_ev
tear_down fuel hands = do
  raise_flag
  join_dispatcher fuel
  status ← begin_destroy
  join_after status hands
  destroy_obd fuel
  destroy_ev fuel
  pure status

-- `main` from the interrupt on
unfoldable pub interrupted : ℕ → List Hand → Cmd Status
unfolding ev_signal_cb tear_down
interrupted fuel hands = do ev_signal_cb; tear_down fuel hands
