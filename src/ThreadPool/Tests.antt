-- ===== src/ThreadPool/Tests.antt =====
-- A run of two workers, and the theorems at it.
use footprints_ev.Base.{inl, ℕ, ◌≡◌, refl, true, false, some, [], ◌∷◌, inl, arith}
use footprints_ev.ThreadPool.{
  Task, ThreadPool, running, immediate_shutdown, graceful_shutdown, Status, success, shutting_down,
  Calls, returned, blocked, wait, add, thread_round, destroy_begin, destroy_end,
}
use footprints_ev.ThreadPool.Ring.{pending, IsRing}
use footprints_ev.ThreadPool.Enqueue.{all_ok, task_of, offer, Untouched, add-offer}
use footprints_ev.ThreadPool.Worker.{work, meaning, thread_round-serve}
use footprints_ev.ThreadPool.World.{
  World, looping, working, exited, destroy_ok, submit, shut, begin, finish, exit, Reach, here, next,
  IsGood,
}
use footprints_ev.ThreadPool.World.Order.{graceful_complete, Reach-Frozen, Frozen}
use footprints_ev.ThreadPool.Destroy.{destroy_begin-twice}

abbrev a : Task
a = task_of 7 1

abbrev b : Task
b = task_of 7 2

abbrev fresh : ThreadPool
fresh = record {
  queue = a ∷ a ∷ [];
  thread_count = 2;
  queue_size = 2;
  head = 0;
  tail = 0;
  count = 0;
  shutdown = running;
  started = 2;
  locked = false;
}

abbrev start : World
start = record { pool = fresh; workers = looping ∷ looping ∷ []; accepted = []; taken = [] }

start-IsGood : IsGood start
start-IsGood = record {
  ring = record { storage = refl; head_in = omega arith; count_in = omega arith; tail_at = refl };
  lock_free = refl;
  in_order = refl;
  counted = refl;
  drained = inl refl;
}

-- two tasks accepted, one of them taken
abbrev busy : World
busy = record {
  pool = record fresh { queue = a ∷ b ∷ []; head = 1; tail = 0; count = 1 };
  workers = working a ∷ looping ∷ [];
  accepted = a ∷ b ∷ [];
  taken = a ∷ [];
}

to_busy : Reach start busy
unfolding add thread_round
to_busy =
    next (next (next here (submit 7 1 _ _ refl refl)) (submit 7 2 _ _ refl refl))
      (begin [] (looping ∷ []) a _ refl refl refl)

-- after a graceful shutdown and all that is left to do
abbrev done : World
done = record {
  pool = record fresh { queue = a ∷ b ∷ []; shutdown = graceful_shutdown; started = 0 };
  workers = exited ∷ exited ∷ [];
  accepted = a ∷ b ∷ [];
  taken = a ∷ b ∷ [];
}

to_done : Reach start done
unfolding thread_round destroy_begin
to_done =
    next
      (next
        (next
          (next
            (next (next to_busy (shut 1 _ refl refl))
              (begin (working a ∷ []) [] b _ refl refl refl))
            (finish [] (working b ∷ []) a refl refl))
          (exit [] (working b ∷ []) _ refl refl refl))
        (finish (exited ∷ []) [] b refl refl))
      (exit (exited ∷ []) [] _ refl refl refl)

-- an immediate shutdown while `b` is pending
abbrev stopped : World
stopped = record busy { pool = record busy.pool { shutdown = immediate_shutdown } }

to_stopped : Reach start stopped
unfolding destroy_begin
to_stopped = next to_busy (shut 0 _ refl refl)

abbrev left : World
left = record stopped {
  pool = record stopped.pool { started = 1 };
  workers = working a ∷ exited ∷ [];
}

to_left : Reach stopped left
unfolding thread_round
to_left = next here (exit (working a ∷ []) [] _ refl refl refl)

graceful_complete_example :
    (done.accepted ≡ done.taken)
    × (pending done.pool ≡ [])
    × (destroy_end (true ∷ true ∷ []) done.pool ≡ (success, true))
graceful_complete_example = graceful_complete to_done start-IsGood refl (λ e. cc) refl

stopped-IsGood : IsGood stopped
stopped-IsGood = record {
  ring = record { storage = refl; head_in = omega arith; count_in = omega arith; tail_at = refl };
  lock_free = refl;
  in_order = refl;
  counted = refl;
  drained = inl refl;
}

Reach-Frozen_example : Frozen stopped left
Reach-Frozen_example = Reach-Frozen to_left stopped-IsGood refl

-- a second `threadpool_destroy`
abbrev twice : World
twice = record stopped { pool = record stopped.pool { locked = true } }

busy-IsRing : IsRing busy.pool
busy-IsRing = record {
  storage = refl;
  head_in = omega arith;
  count_in = omega arith;
  tail_at = refl;
}

add-offer_example :
    (s : Status) × (pool' : ThreadPool) × (add all_ok busy.pool (some 7) 3 ≡ returned (s, pool'))
    × ((s, pending pool') ≡ offer 2 true (b ∷ []) (task_of 7 3))
    × IsRing pool'
    × (pool'.locked ≡ false)
    × Untouched busy.pool pool'
add-offer_example = add-offer busy.pool 7 3 busy-IsRing refl

thread_round-serve_example : meaning (thread_round busy.pool) ≡ some (work b [])
thread_round-serve_example = thread_round-serve busy.pool busy-IsRing refl

destroy_begin-twice_example :
    (pool' : ThreadPool) × (destroy_begin destroy_ok 0 stopped.pool
      ≡ returned (shutting_down, pool'))
    × (pool'.started ≡ 2)
    × (thread_round pool' ≡ wait)
    × ((function argument : ℕ) (c : Calls)
        → add (record c { lock_ok = true }) pool' (some function) argument ≡ blocked)
    × (destroy_begin destroy_ok 0 pool' ≡ blocked)
destroy_begin-twice_example = destroy_begin-twice destroy_ok 0 stopped.pool refl refl refl
