-- ===== src/Server/Main/TearDown.antt =====
-- The end of `main`.
use footprints_ev.Base.{
  ℕ, suc, ◌<◌, ◌≡◌, refl, ap, subst, true, false, some, none, List, [], ◌∷◌, ◌++◌, arith, length,
  sym, ◌+◌,
}
use footprints_ev.Base.Distinct.{All}
use footprints_ev.Pool
use footprints_ev.Pool.{Ptr, Heap}
use footprints_ev.Pool.IsPool.{IsPool}
use footprints_ev.Pool.Destroy.{destroy-frees}
use footprints_ev.Server.{Server, ok, blocked, Blocks}
use footprints_ev.Server.Dispatch.{dispatch-shutdown}
use footprints_ev.Server.Main.{join_dispatcher, begin_destroy, destroy_obd, destroy_ev, tear_down}
use footprints_ev.Server.Main.Joins.{IsClosing, ending-IsServing, hands_leave}
use footprints_ev.Server.Main.Locked.{held_up}
use footprints_ev.Server.Serving.{IsServing}
use footprints_ev.Server.System.Drain.{give_back, Short}
use footprints_ev.Server.System.{System}
use footprints_ev.Server.System.Safe.{Places, IsSafe, held_by}
use footprints_ev.Server.Watchers.{watchers}
use footprints_ev.ThreadPool
use footprints_ev.ThreadPool.{
  ThreadPool, Task, Round, running, immediate_shutdown, success, thread_round, destroy_begin,
}
use footprints_ev.ThreadPool.Enqueue.{all_ok}
use footprints_ev.ThreadPool.Ring.{IsRing}
use footprints_ev.ThreadPool.World.{destroy_ok}

-- the server in the end, with a state of its thread pool
abbrev ending : Server → ThreadPool → Server
ending s pool = record s { mq_flag = true; thread_pool = pool }

closes :
    (pool : ThreadPool)
    → IsRing pool
    → pool.locked ≡ false
    → pool.shutdown ≡ running
    → (pool' : ThreadPool) × (destroy_begin destroy_ok 0 pool
        ≡ ThreadPool.returned (success, pool'))
      × IsClosing pool'
unfolding destroy_begin
closes pool ring free on = (
  record pool { shutdown = immediate_shutdown; locked = false },
  ground arith,
  record {
    ring = record {
      storage = ring.storage;
      head_in = ring.head_in;
      count_in = ring.count_in;
      tail_at = ring.tail_at;
    };
    unlocked = refl;
    closing = refl;
  },
)

-- what is left when the pools are destroyed
abbrev pub Released : Blocks → List Ptr → List Ptr → Blocks → Type 0
Released before free used after =
    All (λ b. after.heap.size b ≡ none) free
    × (after.heap.size before.pool.head ≡ none)
    × All (λ b. after.heap.size b ≡ some before.pool.block_size) used

-- a pool is destroyed
released :
    (fuel : ℕ) (before b : Blocks) (free used : List Ptr)
    → IsPool b.heap b.pool free used
    → b.pool.head ≡ before.pool.head
    → b.pool.block_size ≡ before.pool.block_size
    → length free < fuel
    → (h : Heap) × (Pool.destroy fuel b.heap b.pool ≡ Pool.ok (h, none))
      × Released before free used (record b { heap = h })
released fuel before b free used v same_head same_size enough =
    let (h, destroyed, freed, head, kept) = destroy-frees fuel b.heap b.pool free used v enough in
    (
      h,
      destroyed,
      (
        freed,
        subst (λ p. h.size p ≡ none) same_head head,
        subst (λ n. All (λ b. h.size b ≡ some n) used) same_size kept,
      ),
    )

length-give_back : (ps bs : List Ptr) → length (give_back ps bs) ≡ length ps + length bs
length-give_back [] bs = omega arith
length-give_back (p ∷ ps) bs = omega (arith, length-give_back ps (p ∷ bs))

-- After an interrupt, where a safe server has no message queued and no worker is at a message of 255 characters,
-- `main` gets to its end, within one round more than there are blocks in either free list, those that the workers
-- give back included: the dispatcher leaves, with the mutex of the queue held, and the workers end their tasks and
-- leave. Both pools give their free blocks, those of the ended tasks among them, and their head back to the system.
-- The watchers of the open connections, and the buffers of pending and of refused tasks, stay allocated.
pub tear_down-releases :
    (w : System) (l : Places) (fuel : ℕ)
    → IsSafe w l
    → l.queued ≡ []
    → All (Short w.server.obds) (held_by w.hands)
    → length (held_by w.hands) + length l.free < suc fuel
    → length l.spare < suc fuel
    → (t : Server) × (tear_down (suc fuel) w.hands w.server ≡ ok success t)
      × Released w.server.obd_pool
          (give_back (held_by w.hands) l.free)
          (l.waiting ++ l.lost)
          t.obd_pool
      × Released w.server.ev_pool l.spare (watchers w.server.libev_list l.fds) t.ev_pool
      × (t.obd_mq.locked ≡ true)
unfolding tear_down join_dispatcher begin_destroy destroy_obd destroy_ev
tear_down-releases w l fuel g none_queued short enough enough' =
    let s = w.server in
    let at_work = held_by w.hands in
    let others = l.waiting ++ l.lost in
    let open' = watchers s.libev_list l.fds in
    let v = subst (λ q. IsServing s l.free [] q (at_work ++ others)) none_queued g.serving in
    let stopped =
      dispatch-shutdown (record s { mq_flag = true }) all_ok l.free [] (at_work ++ others)
        (ending-IsServing s s.thread_pool true l.free [] (at_work ++ others) v) refl in
    let (pool, begun, c) = closes s.thread_pool g.ring g.unlocked g.on in
    let (u, gone, v', same, same_ev) =
      hands_leave w.hands (ending s pool) l.free others
        (ending-IsServing s pool true l.free [] (at_work ++ others) v) short c in
    let (h, destroyed, freed) =
      released (suc fuel) s.obd_pool u.obd_pool (give_back at_work l.free) others v'.pool same.0
        same.1 (omega (arith, length-give_back at_work l.free)) in
    let (h', destroyed', freed') =
      released (suc fuel) s.ev_pool u.ev_pool l.spare open'
        (subst (λ b. IsPool b.heap b.pool l.spare open') (sym same_ev) g.watching.pool)
        (ap (λ b. b.pool.head) same_ev) (ap (λ b. b.pool.block_size) same_ev) enough' in
    (
      record (held_up u) {
        obd_pool = record u.obd_pool { heap = h };
        ev_pool = record u.ev_pool { heap = h' };
      },
      rw stopped (rw begun (rw gone (rw (destroyed, destroyed') refl))),
      freed,
      freed',
      refl,
    )

-- Where a message is queued, the dispatcher waits for ever on the mutex that it holds, and `main` does not return.
pub tear_down-blocked :
    (w : System) (l : Places) (fuel x : ℕ) (xs : List Ptr)
    → IsSafe w l
    → l.queued ≡ x ∷ xs
    → tear_down (suc fuel) w.hands w.server ≡ blocked
unfolding tear_down join_dispatcher
tear_down-blocked w l fuel x xs g some_queued =
    let s = w.server in
    let busy = held_by w.hands ++ (l.waiting ++ l.lost) in
    let serving = subst (λ q. IsServing s l.free [] q busy) some_queued g.serving in
    rw
      (dispatch-shutdown (record s { mq_flag = true }) all_ok l.free (x ∷ xs) busy
        (ending-IsServing s s.thread_pool true l.free (x ∷ xs) busy serving) refl)
      refl
