-- ===== src/ThreadPool/Worker.antt =====
-- `threadpool_thread` against a server of the pending tasks.
use footprints_ev.Base.{
  ◌-◌, ◌≡◌, ◌≢◌, refl, ap, false, Option, none, some, List, [], ◌∷◌, arith, ℕ_discrete,
  get_elem?-eq-get_or,
}
use footprints_ev.ThreadPool.{
  Task, ThreadPool, Shutdown, running, immediate_shutdown, graceful_shutdown, Round, wait, leave,
  take, fault, thread_round, next_index,
}
use footprints_ev.ThreadPool.Ring.{pending, IsRing, no_task, pending-cons, pending-nil}

-- the queue without its first task
abbrev dequeue : ThreadPool → ThreadPool
dequeue pool = record pool { head = next_index pool.queue_size pool.head; count = pool.count - 1 }

-- The specification: what a worker does with the pending tasks, the oldest first.
pub data Move : Type 0 where
  rest : Move
  quit : Move
  work : Task → List Task → Move

abbrev pub serve : Shutdown → List Task → Move
serve running [] = rest
serve running (t ∷ q) = work t q
serve immediate_shutdown q = quit
serve graceful_shutdown [] = quit
serve graceful_shutdown (t ∷ q) = work t q

-- what a round of the code means for the pending tasks, of which leaving changes none
abbrev pub meaning : Round → Option Move
meaning wait = some rest
meaning (leave pool) = some quit
meaning (take t pool) = some (work t (pending pool))
meaning fault = none

serve-work :
    (s : Shutdown) (q : List Task) (t : Task) (q' : List Task) → serve s q ≡ work t q' → q ≡ t ∷ q'
serve-work running [] t q' e = absurd (cc)
serve-work running (x ∷ q) t q' e = cc
serve-work immediate_shutdown q t q' e = absurd (cc)
serve-work graceful_shutdown [] t q' e = absurd (cc)
serve-work graceful_shutdown (x ∷ q) t q' e = cc

module _ (pool : ThreadPool) (v : IsRing pool) (free : pool.locked ≡ false) where
  -- On a well-formed pool with the lock free, a worker does what the specification does with the
  -- pending tasks, and never reads the queue out of range.
  pub thread_round-serve : meaning (thread_round pool) ≡ some (serve pool.shutdown (pending pool))
  unfolding thread_round
  thread_round-serve = elim (ℕ_discrete pool.count 0) [
    | yes none_left ↦ rw (pending-nil pool none_left, none_left, free) (ground arith)
    | no some_left ↦
        ground
          (arith, pending-cons pool some_left, get_elem?-eq-get_or pool.queue pool.head no_task)
  ]

  take-moves :
      (t : Task) (pool' : ThreadPool)
      → thread_round pool ≡ take t pool'
      → (pool.count ≢ 0) × (pool' ≡ dequeue pool)
  unfolding thread_round
  take-moves t pool' e = ground arith

  dequeue-IsRing : pool.count ≢ 0 → IsRing (dequeue pool)
  dequeue-IsRing ne = record {
    storage = v.storage;
    head_in = let h = v.head_in in ground arith;
    count_in = let c = v.count_in in omega arith;
    tail_at = ground arith;
  }

  take-IsRing :
      (t : Task) (pool' : ThreadPool)
      → thread_round pool ≡ take t pool'
      → IsRing pool'
        × ((pool'.locked ≡ false)
            × (pool'.shutdown ≡ pool.shutdown)
            × (pool'.started ≡ pool.started))
  take-IsRing t pool' e =
      let (ne, moved) = take-moves t pool' e in rw moved (dequeue-IsRing ne, (free, refl, refl))

  leave-started :
      (pool' : ThreadPool)
      → thread_round pool ≡ leave pool'
      → pool' ≡ record pool { started = pool.started - 1 }
  unfolding thread_round
  leave-started pool' e = ground arith

  -- A round that takes a task takes the oldest, and keeps the ring and everything but the queue.
  pub take-oldest :
      (t : Task) (pool' : ThreadPool)
      → thread_round pool ≡ take t pool'
      → (serve pool.shutdown (pending pool) ≡ work t (pending pool'))
        × (pending pool ≡ t ∷ pending pool')
        × IsRing pool'
        × (pool'.locked ≡ false)
        × (pool'.shutdown ≡ pool.shutdown)
        × (pool'.started ≡ pool.started)
  take-oldest t pool' e =
      let served = thread_round-serve in
      let (ring, same) = take-IsRing t pool' e in
      let move : serve pool.shutdown (pending pool) ≡ work t (pending pool') = cc (ap meaning e) in
      (
        move,
        serve-work pool.shutdown (pending pool) t (pending pool') move,
        ring,
        same.0,
        same.1,
        same.2,
      )

  -- A round that leaves only counts the worker out, in a shutdown that leaves it nothing to do.
  pub leave-counts :
      (pool' : ThreadPool)
      → thread_round pool ≡ leave pool'
      → (serve pool.shutdown (pending pool) ≡ quit)
        × (pool' ≡ record pool { started = pool.started - 1 })
  leave-counts pool' e =
      let served = thread_round-serve in (cc (ap meaning e), leave-started pool' e)
