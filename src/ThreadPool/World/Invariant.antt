-- ===== src/ThreadPool/World/Invariant.antt =====
-- Every step keeps `IsGood`.
use footprints_ev.Base.{
  ℕ, ◌≡◌, ◌≢◌, refl, sym, ◌∙◌, ap, subst, Bool, false, some, List, [], ◌∷◌, ◌++◌, inr, append_assoc,
  arith,
}
use footprints_ev.ThreadPool.{
  Task, ThreadPool, Shutdown, running, immediate_shutdown, graceful_shutdown, Status, success,
  returned, leave, take, add, thread_round, destroy_begin, is_running, requested,
}
use footprints_ev.ThreadPool.Ring.{pending, IsRing}
use footprints_ev.ThreadPool.Enqueue.{all_ok, task_of, offer, add-offer, Untouched}
use footprints_ev.ThreadPool.Worker.{quit, serve, take-oldest, leave-counts}
use footprints_ev.ThreadPool.World.{
  Worker, looping, working, exited, World, destroy_ok, record_add, Step, submit, shut, begin,
  finish, exit, Reach, here, next, active, any_exited, active-middle, any_exited-middle, Drained,
  IsGood, settled, after_exit,
}

-- what an accepted call of `threadpool_add` left
abbrev pub Offered : ThreadPool → Task → Status × ThreadPool → Type 0
Offered pool task (s, p) =
    ((s, pending p) ≡ offer pool.queue_size (is_running pool.shutdown) (pending pool) task)
    × IsRing p
    × (p.locked ≡ false)
    × Untouched pool p

pub add-Offered :
    (pool : ThreadPool) (function argument : ℕ) (s : Status) (p : ThreadPool)
    → IsRing pool
    → pool.locked ≡ false
    → add all_ok pool (some function) argument ≡ returned (s, p)
    → Offered pool (task_of function argument) (s, p)
add-Offered pool function argument s p v free e =
    let (s', p', run, facts, ring, unlocked, same) = add-offer pool function argument v free in
    let equal : (s', p') ≡ (s, p) = cc in
    subst (Offered pool (task_of function argument)) equal (facts, ring, unlocked, same)

offer-order :
    (cap : ℕ) (open' : Bool) (q q' acc taken : List Task) (task : Task) (s : Status)
    → (s, q') ≡ offer cap open' q task
    → acc ≡ taken ++ q
    → record_add s task acc ≡ taken ++ q'
offer-order cap open' q q' acc taken task s e h = ground (arith, append_assoc taken q (task ∷ []))

offer-Drained :
    (cap : ℕ) (sd : Shutdown) (q q' : List Task) (task : Task) (s : Status)
    → (s, q') ≡ offer cap (is_running sd) q task
    → Drained sd q
    → Drained sd q'
offer-Drained cap running [] q' task s e d = absurd (cc)
offer-Drained cap running (x ∷ q) q' task s e d = absurd (cc)
offer-Drained cap immediate_shutdown q q' task s e d = refl
offer-Drained cap graceful_shutdown q q' task s e d = ground arith

submit-IsGood :
    (w : World) (function argument : ℕ) (s : Status) (p : ThreadPool)
    → IsGood w
    → add all_ok w.pool (some function) argument ≡ returned (s, p)
    → IsGood (record w { pool = p; accepted = record_add s (task_of function argument) w.accepted })
submit-IsGood w function argument s p g e =
    let task = task_of function argument in
    let (offered, ring, unlocked, same) =
      add-Offered w.pool function argument s p g.ring g.lock_free e in
    let size = w.pool.queue_size in
    let open' = is_running w.pool.shutdown in
    record {
      ring = ring;
      lock_free = unlocked;
      in_order =
          offer-order size open' (pending w.pool) (pending p) w.accepted w.taken task s offered
            g.in_order;
      counted = same.same_started ∙ g.counted;
      drained = settled _ λ h. rw same.same_shutdown (
          offer-Drained size w.pool.shutdown (pending w.pool) (pending p) task s offered
            (after_exit g h));
    }

pub destroy_begin-running :
    (pool p : ThreadPool) (flags : ℕ)
    → destroy_begin destroy_ok flags pool ≡ returned (success, p)
    → (pool.shutdown ≡ running) × (p ≡ record pool { shutdown = requested flags; locked = false })
unfolding destroy_begin
destroy_begin-running pool p flags e = ground arith

pub running-ne-quit : (q : List Task) → serve running q ≢ quit
running-ne-quit [] e = cc
running-ne-quit (t ∷ q) e = cc

shut-IsGood :
    (w : World) (flags : ℕ) (p : ThreadPool)
    → IsGood w
    → destroy_begin destroy_ok flags w.pool ≡ returned (success, p)
    → IsGood (record w { pool = p })
shut-IsGood w flags p g e =
    let (was, now) = destroy_begin-running w.pool p flags e in
    rw now (record {
      ring = record {
        storage = g.ring.storage;
        head_in = g.ring.head_in;
        count_in = g.ring.count_in;
        tail_at = g.ring.tail_at;
      };
      lock_free = refl;
      in_order = g.in_order;
      counted = g.counted;
      drained = settled _ λ h. absurd (
          running-ne-quit (pending w.pool)
            (subst (λ sd. Drained sd (pending w.pool)) was (after_exit g h)));
    })

begin-IsGood :
    (w : World) (us vs : List Worker) (t : Task) (p : ThreadPool)
    → IsGood w
    → w.workers ≡ us ++ (looping ∷ vs)
    → thread_round w.pool ≡ take t p
    → IsGood (record w { pool = p; workers = us ++ (working t ∷ vs); taken = w.taken ++ (t ∷ []) })
begin-IsGood w us vs t p g ew e =
    let (served, first, ring, unlocked, same, started) =
      take-oldest w.pool g.ring g.lock_free t p e in
    record {
      ring = ring;
      lock_free = unlocked;
      in_order =
          g.in_order
          ∙ (ap (λ q. w.taken ++ q) first ∙ sym (append_assoc w.taken (t ∷ []) (pending p)));
      counted =
          started
          ∙ (g.counted
              ∙ (ap active ew
                  ∙ omega (arith, active-middle us looping vs, active-middle us (working t) vs)));
      drained = settled _ λ h.
          let before =
            after_exit g
              (ap any_exited ew ∙ (any_exited-middle us looping (working t) vs refl ∙ h)) in
          absurd (cc);
    }

finish-IsGood :
    (w : World) (us vs : List Worker) (t : Task)
    → IsGood w
    → w.workers ≡ us ++ (working t ∷ vs)
    → IsGood (record w { workers = us ++ (looping ∷ vs) })
finish-IsGood w us vs t g ew = record {
  ring = g.ring;
  lock_free = g.lock_free;
  in_order = g.in_order;
  counted =
      g.counted
      ∙ (ap active ew
          ∙ omega (arith, active-middle us looping vs, active-middle us (working t) vs));
  drained =
      settled _ λ h.
        after_exit g (ap any_exited ew ∙ (any_exited-middle us (working t) looping vs refl ∙ h));
}

exit-IsGood :
    (w : World) (us vs : List Worker) (p : ThreadPool)
    → IsGood w
    → w.workers ≡ us ++ (looping ∷ vs)
    → thread_round w.pool ≡ leave p
    → IsGood (record w { pool = p; workers = us ++ (exited ∷ vs) })
exit-IsGood w us vs p g ew e =
    let (served, now) = leave-counts w.pool g.ring g.lock_free p e in
    let live = g.counted ∙ ap active ew in
    rw now (record {
      ring = record {
        storage = g.ring.storage;
        head_in = g.ring.head_in;
        count_in = g.ring.count_in;
        tail_at = g.ring.tail_at;
      };
      lock_free = g.lock_free;
      in_order = g.in_order;
      counted = omega (arith, active-middle us looping vs, active-middle us exited vs);
      drained = inr served;
    })

-- every step keeps the invariant
pub Step-IsGood : {w u : World} → Step w u → IsGood w → IsGood u
Step-IsGood {w} (submit f a s p e eu) g = rw eu (submit-IsGood w f a s p g e)
Step-IsGood {w} (shut flags p e eu) g = rw eu (shut-IsGood w flags p g e)
Step-IsGood {w} (begin us vs t p ew e eu) g = rw eu (begin-IsGood w us vs t p g ew e)
Step-IsGood {w} (finish us vs t ew eu) g = rw eu (finish-IsGood w us vs t g ew)
Step-IsGood {w} (exit us vs p ew e eu) g = rw eu (exit-IsGood w us vs p g ew e)

pub Reach-IsGood : {w u : World} → Reach w u → IsGood w → IsGood u
Reach-IsGood here g = g
Reach-IsGood (next r st) g = Step-IsGood st (Reach-IsGood r g)
