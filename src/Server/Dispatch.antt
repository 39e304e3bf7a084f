-- ===== src/Server/Dispatch.antt =====
-- One round of `thread_func_cb`: the oldest message goes to the thread pool.
use footprints_ev.Base.{
  ℕ, ◌≡◌, refl, ◌∙◌, ap, subst, Bool, true, false, some, List, [], ◌∷◌, ◌++◌, append_assoc, length,
  eq→==, if◌then◌else◌,
}
use footprints_ev.Base.Distinct.{All, NotIn}
use footprints_ev.Mq
use footprints_ev.Mq.Get.{mq_get-snoc}
use footprints_ev.Mq.Empty.{is_nil, mq_is_empty-blocks}
use footprints_ev.Obd.Bounds.{IsMessage}
use footprints_ev.Pool.{Ptr}
use footprints_ev.Server.{Server, ok, blocked, ◌>>=◌}
use footprints_ev.Server.Messages.{on_mq, from_mq}
use footprints_ev.Server.Tasks.{dispatch, add_task, obd_decode_thread, hand_over}
use footprints_ev.Server.Frame.{SameConnections}
use footprints_ev.Server.Serving.{IsServing}
use footprints_ev.Mq.IsQueue.{result}
use footprints_ev.ThreadPool
use footprints_ev.ThreadPool.{ThreadPool, Calls, is_running}
use footprints_ev.ThreadPool.Ring.{pending, IsRing, length-pending}
use footprints_ev.ThreadPool.Enqueue.{all_ok, task_of, offer, add-offer}

-- the oldest message leaves the queue
pub mq_get-IsServing :
    (s : Server) (x : Ptr) (bs xs busy : List Ptr)
    → IsServing s bs [] (xs ++ (x ∷ [])) busy
    → (q : Mq.State) × (on_mq Mq.mq_get s ≡ ok (some x) (record s { obd_mq = q }))
      × IsServing (record s { obd_mq = q }) bs [] xs (x ∷ busy)
mq_get-IsServing s x bs xs busy v =
    let (r, q, run, (e, is, _, _, same)) = result (mq_get-snoc x s.obd_mq xs v.queue) in
    let regroup = append_assoc xs (x ∷ []) busy in
    let cells = subst (λ l. All (λ p. s.obd_mq.heap.live p ≡ true) (bs ++ l)) regroup v.cells in
    let sentinel = subst (λ l. NotIn s.obd_mq.list (bs ++ l)) regroup v.sentinel in
    (
      q,
      ap (from_mq s) run ∙ ap (λ o. ok o (record s { obd_mq = q })) e,
      record {
        pool = rw regroup at v.pool;
        queue = is;
        cells = rw same.same_live cells;
        sentinel = rw same.same_list sentinel;
        messages = subst (All (λ p. IsMessage (s.obds p))) regroup v.messages;
      },
    )

pub dispatch-running :
    (s : Server) (calls : Calls)
    → s.mq_flag ≡ false
    → dispatch calls s ≡ (on_mq Mq.mq_get >>= hand_over calls) s
unfolding dispatch
dispatch-running s calls off = rw off refl

-- A round with a message queued and no shutdown: the oldest one, `x`, leaves the queue and is offered
-- to the thread pool, whose answer is dropped. The buffer counts as with the thread pool whether a task for it is
-- pending or not, and no buffer is written. The thread pool stays well-formed and unlocked.
pub dispatch-offer :
    (s : Server) (x : Ptr) (bs xs busy : List Ptr)
    → IsServing s bs [] (xs ++ (x ∷ [])) busy
    → s.mq_flag ≡ false
    → IsRing s.thread_pool
    → s.thread_pool.locked ≡ false
    → (t : Server) × (dispatch all_ok s ≡ ok false t)
      × IsServing t bs [] xs (x ∷ busy)
      × IsRing t.thread_pool
      × (pending t.thread_pool
          ≡ (offer s.thread_pool.queue_size
              (is_running s.thread_pool.shutdown)
              (pending s.thread_pool)
              (task_of obd_decode_thread x)).1)
      × (t.obds ≡ s.obds)
      × (t.thread_pool.locked ≡ false)
      × (t.thread_pool.shutdown ≡ s.thread_pool.shutdown)
      × SameConnections s t
unfolding add_task
dispatch-offer s x bs xs busy v off ring free =
    let (q, got, v') = mq_get-IsServing s x bs xs busy v in
    let (status, pool', added, offered, ring', free', same) =
      add-offer s.thread_pool obd_decode_thread x ring free in
    (
      record s { obd_mq = q; thread_pool = pool' },
      dispatch-running s all_ok off ∙ rw got (rw added refl),
      record {
        pool = v'.pool;
        queue = v'.queue;
        cells = v'.cells;
        sentinel = v'.sentinel;
        messages = v'.messages;
      },
      ring',
      ap (λ r. r.1) offered,
      refl,
      free',
      same.same_shutdown,
      record { same_list = refl; same_ev = refl; same_flag = refl },
    )

offer-full :
    (cap : ℕ) (open' : Bool) (q : List ThreadPool.Task) (task : ThreadPool.Task)
    → length q ≡ cap
    → offer cap open' q task ≡ (ThreadPool.queue_full, q)
offer-full cap open' q task full = rw (eq→== (length q) cap full) refl

-- Where no shutdown is asked for and the thread pool is full, a round takes the oldest message off
-- the queue and goes on, but the pending tasks stay as they were: the buffer counts as with the
-- thread pool, and no new task names it.
pub dispatch-full :
    (s : Server) (x : Ptr) (bs xs busy : List Ptr)
    → IsServing s bs [] (xs ++ (x ∷ [])) busy
    → s.mq_flag ≡ false
    → IsRing s.thread_pool
    → s.thread_pool.locked ≡ false
    → s.thread_pool.count ≡ s.thread_pool.queue_size
    → (t : Server) × (dispatch all_ok s ≡ ok false t)
      × IsServing t bs [] xs (x ∷ busy)
      × (pending t.thread_pool ≡ pending s.thread_pool)
dispatch-full s x bs xs busy v off ring free full =
    let (t, run, v', _, offered, _, _, _, _) = dispatch-offer s x bs xs busy v off ring free in
    (
      t,
      run,
      v',
      offered
          ∙ ap (λ r. r.1)
              (offer-full s.thread_pool.queue_size (is_running s.thread_pool.shutdown)
                (pending s.thread_pool) (task_of obd_decode_thread x)
                (length-pending s.thread_pool ∙ full)),
    )

-- After `mq_flag` is set, a round of the dispatcher with an empty queue ends it, with the mutex
-- held, and one with a message queued waits for ever on the mutex that `mq_is_empty` has kept.
pub dispatch-shutdown :
    (s : Server) (calls : Calls) (bs xs busy : List Ptr)
    → IsServing s bs [] xs busy
    → s.mq_flag ≡ true
    → dispatch calls s ≡ (
        if is_nil xs
        then ok true (record s { obd_mq = record s.obd_mq { locked = true } })
        else blocked)
unfolding dispatch
dispatch-shutdown s calls bs [] busy v on =
    let (_, q, run, (e, eq, _, _, _)) = result (mq_is_empty-blocks s.obd_mq [] v.queue) in
    rw (on, run, e, eq) refl
dispatch-shutdown s calls bs (x ∷ xs) busy v on =
    let (_, q, run, (e, _, _, get, _)) = result (mq_is_empty-blocks s.obd_mq (x ∷ xs) v.queue) in
    rw (on, run, e) (rw get refl)
