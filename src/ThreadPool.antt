-- ===== src/ThreadPool.antt =====
-- threadpool.c: a bounded queue of tasks that worker threads take from.
-- A critical section under `pool->lock` is one function; `locked` is whether the lock is held between
-- them, and a call that finds it held waits for ever in a run of its own: `blocked`. What the pthread calls and `malloc` return is a
-- parameter: true for success. An `int` member is a number; the counts of `threadpool_create` are not
-- negative here (the source leaves that check as a TODO).
pub mod Ring
pub mod Enqueue
pub mod Worker
pub mod World
pub mod Destroy
mod Tests
use footprints_ev.Base.{
  ℕ, zero, suc, ◌+◌, ◌-◌, ◌%◌, Bool, true, false, not, ◌&&◌, ◌||◌, Option, none, some, List, [],
  ◌∷◌, ltb, ◌==◌, if◌then◌else◌, set, get_elem?, replicate,
}

-- `threadpool_task_t`: a function pointer and its argument
pub record Task : Type 0 where
  pub function : ℕ
  pub argument : ℕ

-- the member `shutdown`: 0, or a `threadpool_shutdown_t`
pub data Shutdown : Type 0 where
  running immediate_shutdown graceful_shutdown : Shutdown

abbrev pub is_running : Shutdown → Bool
is_running running = true
is_running immediate_shutdown = false
is_running graceful_shutdown = false

abbrev pub is_immediate : Shutdown → Bool
is_immediate running = false
is_immediate immediate_shutdown = true
is_immediate graceful_shutdown = false

abbrev pub is_graceful : Shutdown → Bool
is_graceful running = false
is_graceful immediate_shutdown = false
is_graceful graceful_shutdown = true

-- 0 and `threadpool_error_t`
pub data Status : Type 0 where
  success invalid lock_failure queue_full shutting_down thread_failure : Status

-- `threadpool_t`; `queue` holds `queue_size` tasks.
pub record ThreadPool : Type 0 where
  pub queue : List Task
  pub thread_count : ℕ
  pub queue_size : ℕ
  pub head : ℕ
  pub tail : ℕ
  pub count : ℕ
  pub shutdown : Shutdown
  pub started : ℕ
  pub locked : Bool

-- the index after `i`, as `threadpool_add` and the worker compute it
abbrev pub next_index : ℕ → ℕ → ℕ
next_index size i = if i + 1 == size then 0 else i + 1

-- what the pthread calls of `threadpool_add` return
pub record Calls : Type 0 where
  pub lock_ok : Bool
  pub signal_ok : Bool
  pub unlock_ok : Bool

abbrev pub enqueue : ThreadPool → Task → ThreadPool
enqueue pool task = record pool {
  queue = set pool.queue pool.tail task;
  tail = next_index pool.queue_size pool.tail;
  count = pool.count + 1;
}

-- between the lock and the unlock
abbrev pub add_locked : Bool → ThreadPool → Task → Status × ThreadPool
add_locked signal_ok pool task =
    if pool.count == pool.queue_size
    then (queue_full, pool)
    else if not (is_running pool.shutdown)
    then (shutting_down, pool)
    else (if signal_ok then success else lock_failure, enqueue pool task)

pub data Outcome {ℓ} (A : Type ℓ) : Type ℓ where
  returned : A → Outcome A
  blocked : Outcome A

abbrev pub add_unlock : Bool → Status × ThreadPool → Status × ThreadPool
add_unlock true (err, pool) = (err, record pool { locked = false })
add_unlock false (err, pool) = (lock_failure, record pool { locked = true })

-- `threadpool_add`; a NULL function is `none`.
unfoldable pub add : Calls → ThreadPool → Option ℕ → ℕ → Outcome (Status × ThreadPool)
add calls pool none argument = returned (invalid, pool)
add calls pool (some function) argument =
    if not calls.lock_ok
    then returned (lock_failure, pool)
    else if pool.locked
    then blocked
    else returned (
        add_unlock calls.unlock_ok
          (add_locked calls.signal_ok pool (record { function = function; argument = argument })))

-- What a worker does at the head of its loop: it waits for the lock or for the condition, it leaves its loop,
-- or it takes a task. `fault` is a read of `queue` out of range.
pub data Round : Type 0 where
  wait : Round
  leave : ThreadPool → Round
  take : Task → ThreadPool → Round
  fault : Round

abbrev pub take_task : ThreadPool → Option Task → Round
take_task pool none = fault
take_task pool (some task) =
    take task (record pool { head = next_index pool.queue_size pool.head; count = pool.count - 1 })

-- one iteration of `threadpool_thread`, up to the unlock
unfoldable pub thread_round : ThreadPool → Round
thread_round pool =
    if pool.locked || (pool.count == 0 && is_running pool.shutdown)
    then wait
    else if is_immediate pool.shutdown || (is_graceful pool.shutdown && pool.count == 0)
    then leave (record pool { started = pool.started - 1 })
    else take_task pool (get_elem? pool.queue pool.head)

-- `flags & threadpool_graceful`
abbrev pub wants_graceful : ℕ → Bool
wants_graceful flags = flags % 2 == 1

-- what the pthread calls of `threadpool_destroy` return before it joins
pub record DestroyCalls : Type 0 where
  pub lock_ok : Bool
  pub broadcast_ok : Bool
  pub unlock_ok : Bool

abbrev pub requested : ℕ → Shutdown
requested flags = if wants_graceful flags then graceful_shutdown else immediate_shutdown

-- the shutdown of `threadpool_destroy`: the lock is given back only where all goes well
abbrev pub destroy_locked : DestroyCalls → ℕ → ThreadPool → Status × ThreadPool
destroy_locked calls flags pool =
    if not (is_running pool.shutdown)
    then (shutting_down, record pool { locked = true })
    else if calls.broadcast_ok && calls.unlock_ok
    then (success, record pool { shutdown = requested flags; locked = false })
    else (lock_failure, record pool { shutdown = requested flags; locked = true })

-- `threadpool_destroy` up to the joins: `success` means that it goes on to join.
unfoldable pub destroy_begin : DestroyCalls → ℕ → ThreadPool → Outcome (Status × ThreadPool)
destroy_begin calls flags pool =
    if not calls.lock_ok
    then returned (lock_failure, pool)
    else if pool.locked
    then blocked
    else returned (destroy_locked calls flags pool)

-- The joins, one result for each thread: an error does not end the loop.
unfoldable pub join_all : List Bool → Status → Status
join_all [] err = err
join_all (true ∷ joins) err = join_all joins err
join_all (false ∷ joins) err = join_all joins thread_failure

-- `threadpool_free`: true where it frees the pool, false where it returns -1.
unfoldable pub free : ThreadPool → Bool
free pool = not (ltb 0 pool.started)

-- the end of `threadpool_destroy`, after the joins: the result, and whether the pool was freed
unfoldable pub destroy_end : List Bool → ThreadPool → Status × Bool
unfolding join_all free
destroy_end joins pool = elim (join_all joins success) [
  | success ↦ (success, free pool)
  | invalid ↦ (invalid, false)
  | lock_failure ↦ (lock_failure, false)
  | queue_full ↦ (queue_full, false)
  | shutting_down ↦ (shutting_down, false)
  | thread_failure ↦ (thread_failure, false)
]

-- What the calls of `threadpool_create` return before it starts threads, and the memory of the queue.
pub record Resources : Type 0 where
  pub pool_ok : Bool
  pub threads_ok : Bool
  pub queue_ok : Bool
  pub mutex_ok : Bool
  pub cond_ok : Bool
  pub slots : List Task

-- `failed` means that no thread was started; `torn_down` goes through `threadpool_destroy` with the
-- threads that were started. Both return NULL.
pub data Created : Type 0 where
  created : ThreadPool → Created
  failed : Created
  torn_down : ThreadPool → Created

abbrev pub start_one : ThreadPool → ThreadPool
start_one pool = record pool { thread_count = pool.thread_count + 1; started = pool.started + 1 }

-- the loop over `pthread_create`, with its results
unfoldable pub start_threads : List Bool → ThreadPool → Created
start_threads [] pool = created pool
start_threads (true ∷ threads) pool = start_threads threads (start_one pool)
start_threads (false ∷ threads) pool = torn_down pool

abbrev pub new_pool : ℕ → List Task → ThreadPool
new_pool queue_size slots = record {
  queue = slots;
  thread_count = 0;
  queue_size = queue_size;
  head = 0;
  tail = 0;
  count = 0;
  shutdown = running;
  started = 0;
  locked = false;
}

-- `threadpool_create`; `threads` has a result for each of the `thread_count` threads.
unfoldable pub create : Resources → List Bool → ℕ → Created
unfolding start_threads
create r threads queue_size =
    if not r.pool_ok
    then failed
    else if not r.mutex_ok || not r.cond_ok || not r.threads_ok || not r.queue_ok
    then failed
    else start_threads threads (new_pool queue_size r.slots)
