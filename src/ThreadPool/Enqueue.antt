-- ===== src/ThreadPool/Enqueue.antt =====
-- `threadpool_add` against a bounded first-in first-out queue.
use footprints_ev.Base.{
  ℕ, ◌≡◌, ◌≢◌, refl, Bool, true, false, some, List, [], ◌∷◌, ◌++◌, arith, ◌==◌, if◌then◌else◌,
  length, ℕ_discrete, Bool-cases, inl, inr,
}
use footprints_ev.ThreadPool.{
  Task, ThreadPool, Calls, Status, success, lock_failure, queue_full, shutting_down, returned,
  is_running, enqueue, add,
}
use footprints_ev.ThreadPool.Ring.{
  pending, IsRing, length-pending, enqueue-IsRing, relock-IsRing, pending-enqueue,
}

abbrev pub task_of : ℕ → ℕ → Task
task_of function argument = record { function = function; argument = argument }

-- The specification: a queue of at most `cap` tasks, closed by a shutdown.
abbrev pub offer : ℕ → Bool → List Task → Task → Status × List Task
offer cap open' q task =
    if length q == cap
    then (queue_full, q)
    else if open'
    then (success, q ++ (task ∷ []))
    else (shutting_down, q)

-- the members that `threadpool_add` leaves alone
pub record Untouched (p q : ThreadPool) : Type 0 where
  pub same_count : q.thread_count ≡ p.thread_count
  pub same_size : q.queue_size ≡ p.queue_size
  pub same_shutdown : q.shutdown ≡ p.shutdown
  pub same_started : q.started ≡ p.started

abbrev pub all_ok : Calls
all_ok = record { lock_ok = true; signal_ok = true; unlock_ok = true }

-- If no pthread call fails and the lock is free, `threadpool_add` returns the status of the bounded
-- queue, leaves the pending tasks as that queue, keeps the ring, gives the lock back, and changes
-- neither the threads nor the shutdown.
pub add-offer :
    (pool : ThreadPool) (function argument : ℕ)
    → IsRing pool
    → pool.locked ≡ false
    → (s : Status) × (pool' : ThreadPool) × (add all_ok pool (some function) argument
        ≡ returned (s, pool'))
      × ((s, pending pool')
          ≡ offer pool.queue_size
              (is_running pool.shutdown)
              (pending pool)
              (task_of function argument))
      × IsRing pool'
      × (pool'.locked ≡ false)
      × Untouched pool pool'
unfolding add
add-offer pool function argument v free = elim (ℕ_discrete pool.count pool.queue_size) [
  | yes full ↦ (
    queue_full,
    record pool { locked = false },
    ground arith,
    ground (arith, length-pending pool),
    relock-IsRing pool false v,
    refl,
    record { same_count = refl; same_size = refl; same_shutdown = refl; same_started = refl },
  )
  | no room ↦ elim (Bool-cases (is_running pool.shutdown)) [
    | inl open' ↦ (
      success,
      record (enqueue pool (task_of function argument)) { locked = false },
      ground arith,
      ground (arith, length-pending pool, pending-enqueue pool (task_of function argument) v room),
      relock-IsRing (enqueue pool (task_of function argument)) false
          (enqueue-IsRing pool (task_of function argument) v room),
      refl,
      record { same_count = refl; same_size = refl; same_shutdown = refl; same_started = refl },
    )
    | inr closed ↦ (
      shutting_down,
      record pool { locked = false },
      ground arith,
      ground (arith, length-pending pool),
      relock-IsRing pool false v,
      refl,
      record { same_count = refl; same_size = refl; same_shutdown = refl; same_started = refl },
    )
  ]
]

-- If only the signal fails, `threadpool_add` on a running pool with room reports a lock failure, but
-- the task is pending.
pub add-signal_failure :
    (pool : ThreadPool) (function argument : ℕ)
    → IsRing pool
    → pool.locked ≡ false
    → pool.count ≢ pool.queue_size
    → is_running pool.shutdown ≡ true
    → (pool' : ThreadPool) × (add
          (record all_ok { signal_ok = false })
          pool
          (some function)
          argument
        ≡ returned (lock_failure, pool'))
      × (pending pool' ≡ pending pool ++ (task_of function argument ∷ []))
unfolding add
add-signal_failure pool function argument v free room open' =
    let task = task_of function argument in
    (record (enqueue pool task) { locked = false }, ground arith, pending-enqueue pool task v room)
