-- ===== src/ThreadPool/World/Order.antt =====
-- What the steps of workers and client amount to, up to the end of `threadpool_destroy`.
use footprints_ev.Base.{
  ℕ, zero, suc, ◌≡◌, ◌≢◌, refl, ◌∙◌, ap, subst, true, List, [], ◌∷◌, ◌++◌, append-nil, arith,
  replicate,
}
use footprints_ev.ThreadPool.{
  Task, ThreadPool, Shutdown, running, immediate_shutdown, graceful_shutdown, Status, success,
  destroy_end, join_all, is_running,
}
use footprints_ev.ThreadPool.Ring.{pending}
use footprints_ev.ThreadPool.Enqueue.{task_of, offer}
use footprints_ev.ThreadPool.Worker.{work, serve, take-oldest, leave-counts}
use footprints_ev.ThreadPool.World.{
  Worker, looping, working, exited, World, record_add, Step, submit, shut, begin, finish, exit,
  Reach, here, next, active, any_exited, Drained, IsGood, after_exit,
}
use footprints_ev.ThreadPool.World.Invariant.{Reach-IsGood, add-Offered, destroy_begin-running}

-- From a good state, whatever the order of the steps, the tasks that `threadpool_add` accepted are
-- those that workers took, in the same order, and then those that are pending: none is dropped from
-- the queue, taken twice or overtaken.
pub Reach-in_order : {w u : World} → Reach w u → IsGood w → u.accepted ≡ u.taken ++ pending u.pool
Reach-in_order r g = (Reach-IsGood r g).in_order

any_exited-active : (xs : List Worker) → xs ≢ [] → active xs ≡ 0 → any_exited xs ≡ true
any_exited-active [] ne e = absurd (ne refl)
any_exited-active (looping ∷ xs) ne e = absurd (omega arith)
any_exited-active (working t ∷ xs) ne e = absurd (omega arith)
any_exited-active (exited ∷ xs) ne e = refl

Drained-nil : (q : List Task) → Drained graceful_shutdown q → q ≡ []
Drained-nil [] d = refl
Drained-nil (t ∷ q) d = absurd (cc)

join_all-success : (n : ℕ) (err : Status) → join_all (replicate n true) err ≡ err
unfolding join_all
join_all-success zero err = refl
join_all-success (suc n) err = join_all-success n err

destroy_end-started :
    (n : ℕ) (pool : ThreadPool)
    → pool.started ≡ 0
    → destroy_end (replicate n true) pool ≡ (success, true)
unfolding destroy_end
destroy_end-started n pool e = rw (destroy_end, join_all-success n success, e)

-- From a good state, after a graceful shutdown and once every worker has left, every accepted task
-- was taken, in order, no task is pending, and `threadpool_destroy` returns 0 and frees the pool if
-- its joins succeed.
pub graceful_complete :
    {w u : World}
    → Reach w u
    → IsGood w
    → u.pool.shutdown ≡ graceful_shutdown
    → u.workers ≢ []
    → active u.workers ≡ 0
    → (u.accepted ≡ u.taken)
      × (pending u.pool ≡ [])
      × (destroy_end (replicate u.pool.thread_count true) u.pool ≡ (success, true))
graceful_complete {u} r g s ne done =
    let good = Reach-IsGood r g in
    let empty = Drained-nil (pending u.pool) (
      subst (λ sd. Drained sd (pending u.pool)) s
        (after_exit good (any_exited-active u.workers ne done))) in
    (
      good.in_order ∙ (ap (λ q. u.taken ++ q) empty ∙ append-nil u.taken),
      empty,
      destroy_end-started u.pool.thread_count u.pool (good.counted ∙ done),
    )

-- what an immediate shutdown freezes
pub record Frozen (w u : World) : Type 0 where
  pub still : u.pool.shutdown ≡ immediate_shutdown
  pub same_accepted : u.accepted ≡ w.accepted
  pub same_taken : u.taken ≡ w.taken
  pub same_pending : pending u.pool ≡ pending w.pool

offer-closed :
    (cap : ℕ) (sd : Shutdown) (q q' acc : List Task) (task : Task) (s : Status)
    → sd ≡ immediate_shutdown
    → (s, q') ≡ offer cap (is_running sd) q task
    → (q' ≡ q) × (record_add s task acc ≡ acc)
offer-closed cap sd q q' acc task s e o = ground arith

quit-ne-work :
    (sd : Shutdown) (q : List Task) (t : Task) (q' : List Task)
    → sd ≡ immediate_shutdown
    → serve sd q ≢ work t q'
quit-ne-work running q t q' e served = absurd (cc)
quit-ne-work immediate_shutdown q t q' e served = absurd (cc)
quit-ne-work graceful_shutdown q t q' e served = absurd (cc)

Step-Frozen :
    {w u : World} → Step w u → IsGood w → w.pool.shutdown ≡ immediate_shutdown → Frozen w u
Step-Frozen {w} (submit f a s p e eu) g still =
    let (offered, ring, unlocked, same) = add-Offered w.pool f a s p g.ring g.lock_free e in
    let (same_pending, same_accepted) =
      offer-closed w.pool.queue_size w.pool.shutdown (pending w.pool) (pending p) w.accepted
        (task_of f a) s still offered in
    rw eu (record {
      still = same.same_shutdown ∙ still;
      same_accepted = same_accepted;
      same_taken = refl;
      same_pending = same_pending;
    })
Step-Frozen {w} (shut flags p e eu) g still =
    let (was, now) = destroy_begin-running w.pool p flags e in absurd (cc)
Step-Frozen {w} (begin us vs t p ew e eu) g still =
    let (served, _, _, _, _, _) = take-oldest w.pool g.ring g.lock_free t p e in
    absurd (quit-ne-work w.pool.shutdown (pending w.pool) t (pending p) still served)
Step-Frozen {w} (finish us vs t ew eu) g still =
    rw eu (record { still = still; same_accepted = refl; same_taken = refl; same_pending = refl })
Step-Frozen {w} (exit us vs p ew e eu) g still =
    let (_, now) = leave-counts w.pool g.ring g.lock_free p e in
    rw (eu, now)
      (record { still = still; same_accepted = refl; same_taken = refl; same_pending = refl })

-- From a good state in an immediate shutdown, whatever steps follow, no task is accepted or taken
-- any more, and the pending tasks stay pending.
pub Reach-Frozen :
    {w u : World} → Reach w u → IsGood w → w.pool.shutdown ≡ immediate_shutdown → Frozen w u
Reach-Frozen here g still = record {
  still = still;
  same_accepted = refl;
  same_taken = refl;
  same_pending = refl;
}
Reach-Frozen (next r st) g still =
    let before = Reach-Frozen r g still in
    let after = Step-Frozen st (Reach-IsGood r g) before.still in
    record {
      still = after.still;
      same_accepted = after.same_accepted ∙ before.same_accepted;
      same_taken = after.same_taken ∙ before.same_taken;
      same_pending = after.same_pending ∙ before.same_pending;
    }
