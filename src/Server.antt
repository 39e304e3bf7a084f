-- ===== src/Server.antt =====
-- main-ev.c: the callbacks of the event loop, the thread that moves messages from the queue to the
-- thread pool, and the task that decodes a message. libev, the sockets and `malloc` are parameters: what
-- a call returns is an argument, what it does to the outside is an effect in a log.
pub mod Connections
pub mod Messages
pub mod Tasks
pub mod Frame
pub mod Moves
pub mod System
pub mod Main
pub mod Fine
pub mod Memory
pub mod Buffer
pub mod Whole
mod Tests
mod Sample
pub mod Decode
pub mod Dispatch
pub mod Receive
pub mod Serving
pub mod Watchers
use footprints_ev.Base.{
  ℕ, zero, suc, ◌+◌, ◌%◌, Bool, true, false, ◌&&◌, Option, none, some, List, [], ◌∷◌, ◌++◌, ltb,
  ◌==◌, if◌then◌else◌, update, set, replicate, drop, length,
}
use footprints_ev.CString.{strlen}
use footprints_ev.Mq
use footprints_ev.Obd
use footprints_ev.Obd.{Obd, image, buf_size}
use footprints_ev.Pool
use footprints_ev.Pool.{Ptr, null, MemoryPool}
use footprints_ev.ThreadPool
use footprints_ev.ThreadPool.{ThreadPool}

-- `SOCKET_ALLOC_MAX_CLIENT`, the size of `libev_list`
abbrev pub max_client : ℕ
max_client = 20480

-- a pool and the memory that it manages; the blocks of the two pools are apart
pub record Blocks : Type 0 where
  pub heap : Pool.Heap
  pub pool : MemoryPool

-- what the server does to the outside
pub data Effect : Type 0 where
  close : ℕ → Effect
  start : Ptr → ℕ → Effect
  stop : Ptr → Effect
  send_ok : ℕ → Effect
  break_all : Effect

-- The globals. The `list` member of the `OBD_t` at an address is the cell of that address in `obd_mq`.
pub record Server : Type 0 where
  pub libev_list : ℕ → Ptr
  pub ev_pool : Blocks
  pub obd_pool : Blocks
  pub obds : Ptr → Obd
  pub obd_mq : Mq.State
  pub thread_pool : ThreadPool
  pub mq_flag : Bool
  pub log : List Effect

-- `fault`: an access outside an object, or the use of a pointer that was never set. `blocked`: a lock
-- that is never given back. `endless`: a loop that the fuel does not finish.
pub data Run {ℓ} (A : Type ℓ) : Type ℓ where
  ok : A → Server → Run A
  fault : Run A
  blocked : Run A
  endless : Run A

abbrev pub Cmd : Type 0 → Type 0
Cmd A = Server → Run A

abbrev pub pure : {A : Type 0} → A → Cmd A
pure = ok

module _ {A B : Type 0} where
  abbrev pub and_then : Run A → (A → Cmd B) → Run B
  and_then (ok a s) k = k a s
  and_then fault k = fault
  and_then blocked k = blocked
  and_then endless k = endless

  infixl 5 ◌>>=◌ ◌>>◌
  abbrev pub ◌>>=◌ : Cmd A → (A → Cmd B) → Cmd B
  m >>= k = λ s. and_then (m s) k

  abbrev pub ◌>>◌ : Cmd A → Cmd B → Cmd B
  m >> n = m >>= λ _. n

abbrev pub emit : Effect → Cmd (Unit {0})
emit e s = ok tt (record s { log = s.log ++ (e ∷ []) })

-- `Malloc` and `Free` on each of the two pools
abbrev pub from_malloc : (Blocks → Server) → Pool.Run (Ptr × Pool.Heap × MemoryPool) → Run Ptr
from_malloc back (Pool.ok (p, h, pool)) = ok p (back (record { heap = h; pool = pool }))
from_malloc back Pool.fault = fault
from_malloc back Pool.out_of_fuel = endless

abbrev pub from_free : (Blocks → Server) → Pool.Run (Pool.Heap × MemoryPool) → Run (Unit {0})
from_free back (Pool.ok (h, pool)) = ok tt (back (record { heap = h; pool = pool }))
from_free back Pool.fault = fault
from_free back Pool.out_of_fuel = endless

abbrev pub with_ev : Server → Blocks → Server
with_ev s b = record s { ev_pool = b }

abbrev pub with_obd : Server → Blocks → Server
with_obd s b = record s { obd_pool = b }

unfoldable pub malloc_ev : Option Ptr → Cmd Ptr
malloc_ev fresh s = from_malloc (with_ev s) (Pool.malloc fresh s.ev_pool.heap s.ev_pool.pool)

unfoldable pub free_ev : Ptr → Cmd (Unit {0})
free_ev p s = from_free (with_ev s) (Pool.free s.ev_pool.heap s.ev_pool.pool p)

unfoldable pub malloc_obd : Option Ptr → Cmd Ptr
malloc_obd fresh s = from_malloc (with_obd s) (Pool.malloc fresh s.obd_pool.heap s.obd_pool.pool)

unfoldable pub free_obd : Ptr → Cmd (Unit {0})
free_obd p s = from_free (with_obd s) (Pool.free s.obd_pool.heap s.obd_pool.pool p)
