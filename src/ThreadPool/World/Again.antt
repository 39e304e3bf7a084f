-- ===== src/ThreadPool/World/Again.antt =====
-- The critical sections of the pool, with those of a `threadpool_destroy` that comes after another.
use footprints_ev.Base.{ℕ, ◌≡◌, true, false}
use footprints_ev.ThreadPool.{ThreadPool, shutting_down, returned, destroy_begin, is_running}
use footprints_ev.ThreadPool.World.{World, destroy_ok, Step, IsGood}

-- A step, or the critical section of a `threadpool_destroy` that finds the pool in a shutdown.
pub data Section (w u : World) : Type 0 where
  once : Step w u → Section w u
  again :
      (flags : ℕ) (pool : ThreadPool)
      → destroy_begin destroy_ok flags w.pool ≡ returned (shutting_down, pool)
      → u ≡ record w { pool = pool }
      → Section w u

abbrev pub unlocked : World → World
unlocked w = record w { pool = record w.pool { locked = false } }

-- The pool is in a shutdown and its lock is held by nobody who would give it back.
pub record IsStuck (w : World) : Type 0 where
  pub good : IsGood (unlocked w)
  pub held : w.pool.locked ≡ true
  pub closed : is_running w.pool.shutdown ≡ false
