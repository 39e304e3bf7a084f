-- ===== src/Mq/Threads.antt =====
-- OBD_mq.h, several threads: `mq_put` and `mq_get` cut into their accesses to shared memory, which the
-- threads take in any order. Between its lock and its unlock a call is a program of loads and stores.
pub mod Calls
pub mod Steady
pub mod Section
pub mod Atomic
pub mod Progress
mod Tests
use footprints_ev.Base.{
  ℕ, Bool, true, false, ◌≡◌, ◌≢◌, Option, none, some, List, [], ◌∷◌, ◌++◌, ◌==◌, if◌then◌else◌,
  update,
}
use footprints_ev.Base.Distinct.{NotIn}
use footprints_ev.Mq.{
  Ptr, State, Cmd, ok, pure, ◌>>=◌, ◌>>◌, get_next, get_prev, set_next, set_prev, mq_list, set_size,
  inc32, dec32, lock, unlock,
}
use footprints_ev.Mq.Queue.{Op, put, get}

-- what is left of a call, up to its unlock
pub data Prog : Type 0 where
  done : Option Ptr → Prog
  load : Cmd Ptr → (Ptr → Prog) → Prog
  store : Cmd (Unit {0}) → Prog → Prog

-- `list_init`
abbrev pub init_then : Ptr → Prog → Prog
init_then p rest = store (set_next p p) (store (set_prev p p) rest)

-- `list_add_front` and `mq->size++`
unfoldable pub put_body : Ptr → Prog
put_body current = load mq_list λ head. load (get_next head) λ first.
    store (set_next current first) (
      load (get_next head) λ first. store (set_prev first current) (
        store (set_next head current)
          (store (set_prev current head) (store (set_size inc32) (done none)))))

-- `list_del_back` from the test on, and `mq->size--`
abbrev pub unlink_then : Ptr → Ptr → Prog
unlink_then head current = load (get_prev current) λ before. store (set_next before head) (
    load (get_prev current) λ before.
      store (set_prev head before)
        (init_then current (store (set_size dec32) (done (some current)))))

unfoldable pub get_body : Prog
get_body = load mq_list λ head.
    load (get_prev head) λ current. if current == head then done none else unlink_then head current

abbrev pub body : Op → Prog
body (put n) = put_body n
body get = get_body

-- a program run to its end, with no other thread in between
unfoldable pub whole : Prog → Cmd (Option Ptr)
whole (done r) = pure r
whole (load m k) = m >>= λ a. whole (k a)
whole (store m p) = m >> whole p

-- A thread: outside the mutex with the calls that it still makes, or in one of them.
pub data Thread : Type 0 where
  outside : List Op → Thread
  inside : List Op → Op → Prog → Thread

-- The queue, the threads, and the calls that have returned, the newest first, with what they returned.
pub record World : Type 0 where
  pub state : State
  pub threads : ℕ → Thread
  pub history : List (Op × Option Ptr)

abbrev pub moves_to : World → ℕ → Thread → State → World
moves_to w i th s = record w { state = s; threads = update w.threads i th }

-- A client puts live cells, and none that waits in the queue.
abbrev pub MayCall : Op → List Ptr → State → Type 0
MayCall (put n) q s = (s.heap.live n ≡ true) × (n ≢ s.list) × NotIn n q
MayCall get q s = Unit {0}

-- what a call answers in the first-in first-out queue, and what waits then
abbrev pub serve : Op → List Ptr → Option Ptr × List Ptr
serve (put n) q = (none, q ++ (n ∷ []))
serve get [] = (none, [])
serve get (x ∷ q) = (some x, q)

-- The calls of a history, one after the other, from the messages `q0`: each answers what it returned.
pub data Serial (q0 : List Ptr) : List (Op × Option Ptr) → List Ptr → Type 0 where
  start : Serial q0 [] q0
  next :
      {h : List (Op × Option Ptr)} {q : List Ptr}
      → Serial q0 h q
      → (op : Op) → Serial q0 ((op, (serve op q).0) ∷ h) (serve op q).1

-- One access of one thread. A thread enters where the mutex is free: `pthread_mutex_lock` returns.
pub data Step (q0 : List Ptr) (w : World) : World → Type 0 where
  enter :
      (i : ℕ) {op : Op} {ops : List Op} {s : State}
      → w.threads i ≡ outside (op ∷ ops)
      → ((q : List Ptr) → Serial q0 w.history q → MayCall op q w.state)
      → lock w.state ≡ ok tt s
      → Step q0 w (moves_to w i (inside ops op (body op)) s)
  loads :
      (i : ℕ) {op : Op} {ops : List Op} {m : Cmd Ptr} {k : Ptr → Prog} {a : Ptr} {s : State}
      → w.threads i ≡ inside ops op (load m k)
      → m w.state ≡ ok a s
      → Step q0 w (moves_to w i (inside ops op (k a)) s)
  stores :
      (i : ℕ) {op : Op} {ops : List Op} {m : Cmd (Unit {0})} {p : Prog} {s : State}
      → w.threads i ≡ inside ops op (store m p)
      → m w.state ≡ ok tt s
      → Step q0 w (moves_to w i (inside ops op p) s)
  leave :
      (i : ℕ) {op : Op} {ops : List Op} {r : Option Ptr} {s : State}
      → w.threads i ≡ inside ops op (done r)
      → unlock w.state ≡ ok tt s
      → Step q0 w (record (moves_to w i (outside ops) s) { history = (op, r) ∷ w.history })

pub data Reach (q0 : List Ptr) (v : World) : World → Type 0 where
  here : Reach q0 v v
  later : {w u : World} → Reach q0 v w → Step q0 w u → Reach q0 v u
