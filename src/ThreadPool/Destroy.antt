-- ===== src/ThreadPool/Destroy.antt =====
-- A second `threadpool_destroy`, and `threadpool_create`.
use footprints_ev.Base.{
  ℕ, zero, suc, ◌+◌, ◌<◌, ◌≡◌, refl, sym, ◌∙◌, true, false, some, List, [], inl, arith, length,
  replicate,
}
use footprints_ev.ThreadPool.{
  Task, ThreadPool, shutting_down, running, Calls, DestroyCalls, returned, blocked, wait, add,
  thread_round, destroy_begin, is_running, Resources, created, create, start_threads, start_one,
  new_pool,
}
use footprints_ev.ThreadPool.Ring.{pending}
use footprints_ev.ThreadPool.World.{looping, IsGood, active, any_exited}

-- `threadpool_destroy` on a pool that is shutting down, whose lock is free and can be taken, returns
-- with the lock held. After that a worker waits at the head of its loop, and `threadpool_add` and
-- `threadpool_destroy`, where they get to the lock, wait for ever.
pub destroy_begin-twice :
    (calls : DestroyCalls) (flags : ℕ) (pool : ThreadPool)
    → calls.lock_ok ≡ true
    → pool.locked ≡ false
    → is_running pool.shutdown ≡ false
    → (pool' : ThreadPool) × (destroy_begin calls flags pool ≡ returned (shutting_down, pool'))
      × (pool'.started ≡ pool.started)
      × (thread_round pool' ≡ wait)
      × ((function argument : ℕ) (c : Calls)
          → add (record c { lock_ok = true }) pool' (some function) argument ≡ blocked)
      × (destroy_begin calls flags pool' ≡ blocked)
unfolding destroy_begin thread_round add
destroy_begin-twice calls flags pool lock free closed =
    (record pool { locked = true }, ground arith, refl, refl, (λ f a c. refl), ground arith)

start_threads-all :
    (n : ℕ) (pool : ThreadPool)
    → start_threads (replicate n true) pool
      ≡ created (record pool { thread_count = n + pool.thread_count; started = n + pool.started })
unfolding start_threads
start_threads-all zero pool = ground arith
start_threads-all (suc n) pool = start_threads-all n (start_one pool) ∙ ground arith

active-looping : (n : ℕ) → active (replicate n looping) ≡ n
active-looping zero = refl
active-looping (suc n) = omega (arith, active-looping n)

any_exited-looping : (n : ℕ) → any_exited (replicate n looping) ≡ false
any_exited-looping zero = refl
any_exited-looping (suc n) = any_exited-looping n

abbrev pub all_resources : List Task → Resources
all_resources slots = record {
  pool_ok = true;
  threads_ok = true;
  queue_ok = true;
  mutex_ok = true;
  cond_ok = true;
  slots = slots;
}

abbrev started_pool : ℕ → ℕ → List Task → ThreadPool
started_pool n queue_size slots = record (new_pool queue_size slots) {
  thread_count = n;
  started = n;
}

started-IsGood :
    (n queue_size : ℕ) (slots : List Task)
    → 0 < queue_size
    → length slots ≡ queue_size
    → IsGood (record {
      pool = started_pool n queue_size slots;
      workers = replicate n looping;
      accepted = [];
      taken = [];
    })
started-IsGood n queue_size slots pos size = record {
  ring = record { storage = size; head_in = pos; count_in = omega arith; tail_at = ground arith };
  lock_free = refl;
  in_order = refl;
  counted = sym (active-looping n);
  drained = inl (any_exited-looping n);
}

-- If every call succeeds and the queue has at least one slot, `threadpool_create` returns a running pool
-- with all its threads started, no task, and the invariant that the steps keep.
pub create-IsGood :
    (n queue_size : ℕ) (slots : List Task)
    → 0 < queue_size
    → length slots ≡ queue_size
    → (pool : ThreadPool) × (create (all_resources slots) (replicate n true) queue_size
        ≡ created pool)
      × (pool.thread_count ≡ n)
      × (pool.shutdown ≡ running)
      × (pending pool ≡ [])
      × IsGood (record { pool = pool; workers = replicate n looping; accepted = []; taken = [] })
unfolding create
create-IsGood n queue_size slots pos size = (
  started_pool n queue_size slots,
  start_threads-all n (new_pool queue_size slots) ∙ ground arith,
  refl,
  refl,
  refl,
  started-IsGood n queue_size slots pos size,
)
