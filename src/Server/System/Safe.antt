-- ===== src/Server/System/Safe.antt =====
-- The invariant of the whole server, and what the surroundings promise at a step.
use footprints_ev.Base.{ℕ, ◌≡◌, ◌≢◌, true, false, none, some, List, [], ◌∷◌, ◌++◌, map, get_elem?}
use footprints_ev.Pool.{Ptr, null}
use footprints_ev.Server.{max_client}
use footprints_ev.Server.Receive.{Fits}
use footprints_ev.Server.Serving.{IsServing}
use footprints_ev.Server.System.{
  System, Hand, idle, decoding, left, Event, connect, readable, round, work,
}
use footprints_ev.Server.Tasks.{obd_decode_thread}
use footprints_ev.Server.Watchers.{IsWatching}
use footprints_ev.ThreadPool.{running}
use footprints_ev.ThreadPool.Enqueue.{task_of}
use footprints_ev.ThreadPool.Ring.{pending, IsRing}

abbrev pub held_by : List Hand → List Ptr
held_by [] = []
held_by (idle ∷ hs) = held_by hs
held_by (decoding p ∷ hs) = p ∷ held_by hs
held_by (left ∷ hs) = held_by hs

-- Where everything is: the open descriptors, the spare watchers, the free buffers, the queued ones,
-- those of the pending tasks, and those that the thread pool turned away.
pub record Places : Type 0 where
  pub fds : List ℕ
  pub spare : List Ptr
  pub free : List Ptr
  pub queued : List Ptr
  pub waiting : List Ptr
  pub lost : List Ptr

pub record IsSafe (w : System) (l : Places) : Type 0 where
  pub serving : IsServing w.server l.free [] l.queued (held_by w.hands ++ (l.waiting ++ l.lost))
  pub watching : IsWatching w.server l.fds l.spare
  pub ring : IsRing w.server.thread_pool
  pub unlocked : w.server.thread_pool.locked ≡ false
  pub on : w.server.thread_pool.shutdown ≡ running
  pub tasks : pending w.server.thread_pool ≡ map (task_of obd_decode_thread) l.waiting
  pub flag : w.server.mq_flag ≡ false

-- `malloc` hands out memory that is in no use; a descriptor is not 20480; a readable one is open, and
-- `recv` writes no more than it was asked for; a message under work is not of 255 characters.
abbrev pub Allowed : Event → System → Type 0
Allowed (connect a error client) w =
    (a ≢ null) × (w.server.ev_pool.heap.size a ≡ none) × (client ≢ some max_client)
Allowed (readable a error fd result) w =
    (a ≢ null)
    × (w.server.obd_pool.heap.size a ≡ none)
    × (w.server.obd_mq.heap.live a ≡ true)
    × (a ≢ w.server.obd_mq.list)
    × Fits result
    × (w.server.libev_list fd ≢ null)
Allowed round w = Unit {0}
Allowed (work i) w =
    (p : Ptr) → get_elem? w.hands i ≡ some (decoding p) → (w.server.obds p).data_length ≢ 255
