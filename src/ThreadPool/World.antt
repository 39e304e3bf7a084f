-- ===== src/ThreadPool/World.antt =====
-- A pool with its workers and a client, in every order of their critical sections, up to the first
-- `threadpool_destroy`. Again adds the calls of it that come later.
pub mod Invariant
pub mod Order
pub mod Again
use footprints_ev.Base.{
  ℕ, zero, suc, ◌+◌, ◌-◌, ◌≤◌, ◌<◌, ◌≡◌, ◌≢◌, refl, sym, ◌∙◌, ap, subst, Bool, true, false, not,
  ◌||◌, Option, none, some, List, [], ◌∷◌, ◌++◌, ◌⊎◌, inl, inr, append_assoc, arith, if◌then◌else◌,
}
use footprints_ev.ThreadPool.{
  Task, ThreadPool, Shutdown, running, immediate_shutdown, graceful_shutdown, Status, success,
  invalid, lock_failure, queue_full, shutting_down, thread_failure, Outcome, returned, Round, wait,
  leave, take, fault, add, thread_round, DestroyCalls, destroy_begin, is_running,
}
use footprints_ev.ThreadPool.Ring.{pending, IsRing}
use footprints_ev.ThreadPool.Enqueue.{all_ok, task_of, offer, add-offer}
use footprints_ev.ThreadPool.Worker.{rest, quit, work, serve, take-oldest, leave-counts}

pub data Worker : Type 0 where
  looping : Worker
  working : Task → Worker
  exited : Worker

-- `accepted` and `taken` record the tasks that `threadpool_add` accepted and that workers took, in order.
pub record World : Type 0 where
  pub pool : ThreadPool
  pub workers : List Worker
  pub accepted : List Task
  pub taken : List Task

abbrev pub destroy_ok : DestroyCalls
destroy_ok = record { lock_ok = true; broadcast_ok = true; unlock_ok = true }

-- the accepted tasks after `threadpool_add` returned a status
abbrev pub record_add : Status → Task → List Task → List Task
record_add success task q = q ++ (task ∷ [])
record_add invalid task q = q
record_add lock_failure task q = q
record_add queue_full task q = q
record_add shutting_down task q = q
record_add thread_failure task q = q

-- One critical section, or the end of a task. The pthread calls succeed. A worker that waits takes no step, nor does a
-- `threadpool_destroy` after the first: it returns with the lock held, see `Section` in World/Again.
pub data Step (w u : World) : Type 0 where
  submit :
      (function argument : ℕ) (s : Status) (pool : ThreadPool)
      → add all_ok w.pool (some function) argument ≡ returned (s, pool)
      → u ≡ record w { pool = pool; accepted = record_add s (task_of function argument) w.accepted }
      → Step w u
  shut :
      (flags : ℕ) (pool : ThreadPool)
      → destroy_begin destroy_ok flags w.pool ≡ returned (success, pool)
      → u ≡ record w { pool = pool }
      → Step w u
  begin :
      (us vs : List Worker) (t : Task) (pool : ThreadPool)
      → w.workers ≡ us ++ (looping ∷ vs)
      → thread_round w.pool ≡ take t pool
      → u ≡ record w { pool = pool; workers = us ++ (working t ∷ vs); taken = w.taken ++ (t ∷ []) }
      → Step w u
  finish :
      (us vs : List Worker) (t : Task)
      → w.workers ≡ us ++ (working t ∷ vs)
      → u ≡ record w { workers = us ++ (looping ∷ vs) }
      → Step w u
  exit :
      (us vs : List Worker) (pool : ThreadPool)
      → w.workers ≡ us ++ (looping ∷ vs)
      → thread_round w.pool ≡ leave pool
      → u ≡ record w { pool = pool; workers = us ++ (exited ∷ vs) }
      → Step w u

pub data Reach (w : World) : World → Type 0 where
  here : Reach w w
  next : {u v : World} → Reach w u → Step u v → Reach w v

-- 1 for a thread that has not left its loop
abbrev pub weight : Worker → ℕ
weight looping = 1
weight (working t) = 1
weight exited = 0

abbrev pub active : List Worker → ℕ
active [] = 0
active (x ∷ xs) = weight x + active xs

abbrev pub has_exited : Worker → Bool
has_exited looping = false
has_exited (working t) = false
has_exited exited = true

abbrev pub any_exited : List Worker → Bool
any_exited [] = false
any_exited (x ∷ xs) = has_exited x || any_exited xs

active-middle :
    (us : List Worker) (x : Worker) (vs : List Worker)
    → active (us ++ (x ∷ vs)) ≡ active us + weight x + active vs
active-middle [] x vs = omega arith
active-middle (y ∷ us) x vs = omega (arith, active-middle us x vs)

-- a worker that is replaced by one that has not left changes no answer of `any_exited`
any_exited-middle :
    (us : List Worker) (x y : Worker) (vs : List Worker)
    → has_exited x ≡ has_exited y
    → any_exited (us ++ (x ∷ vs)) ≡ any_exited (us ++ (y ∷ vs))
any_exited-middle [] x y vs e = rw e
any_exited-middle (z ∷ us) x y vs e = rw (any_exited-middle us x y vs e)

-- Nothing is pending in a shutdown that a worker could leave in, but in an immediate one.
abbrev pub Drained : Shutdown → List Task → Type 0
Drained s q = serve s q ≡ quit

pub record IsGood (w : World) : Type 0 where
  pub ring : IsRing w.pool
  pub lock_free : w.pool.locked ≡ false
  pub in_order : w.accepted ≡ w.taken ++ pending w.pool
  pub counted : w.pool.started ≡ active w.workers
  pub drained : (any_exited w.workers ≡ false) ⊎ Drained w.pool.shutdown (pending w.pool)

pub settled : {D : Type 0} (b : Bool) → (b ≡ true → D) → (b ≡ false) ⊎ D
settled true d = inr (d refl)
settled false d = inl refl

pub after_exit :
    {w : World} → IsGood w → any_exited w.workers ≡ true → Drained w.pool.shutdown (pending w.pool)
after_exit g h = elim g.drained [ inl e ↦ absurd (cc) | inr d ↦ d ]
