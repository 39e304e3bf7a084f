-- ===== src/Server/Fine/Carrying.antt =====
-- The two steps of a round of the dispatcher.
use footprints_ev.Base.{
  ◌≡◌, refl, sym, ◌∙◌, ap, subst, if◌then◌else◌, Bool, true, false, Option, none, some, List, [],
  ◌∷◌, ◌++◌, map, length, ◌==◌, inl, inr, Bool-cases,
}
use footprints_ev.Mq
use footprints_ev.Mq.Get.{mq_get-nil}
use footprints_ev.Mq.IsQueue.{IsQueue}
use footprints_ev.Pool.{Ptr}
use footprints_ev.Server.{Server, Run, ok, pure, and_then, ◌>>=◌}
use footprints_ev.Server.Dispatch.{mq_get-IsServing}
use footprints_ev.Server.Fine.{poll}
use footprints_ev.Server.Fine.Reading.{lost-given, lost-taken, lost-IsMessage}
use footprints_ev.Server.Messages.{on_mq}
use footprints_ev.Server.Moves.{taken-IsServing, given-IsServing, busy-IsMessage}
use footprints_ev.Server.Serving.{IsServing}
use footprints_ev.Server.System.{System, with_pool}
use footprints_ev.Server.System.Callbacks.{placed-IsSafe}
use footprints_ev.Server.System.Rounds.{snoc-cases, room-Placed}
use footprints_ev.Server.System.Safe.{Places, IsSafe, held_by}
use footprints_ev.Server.System.Work.{with_pool-IsServing}
use footprints_ev.Server.Tasks.{obd_decode_thread, add_task, hand_over}
use footprints_ev.ThreadPool.{ThreadPool, is_running}
use footprints_ev.ThreadPool.Enqueue.{all_ok, task_of, offer, add-offer}
use footprints_ev.ThreadPool.Ring.{pending, IsRing, length-pending}

abbrev pub held : Option Ptr → List Ptr
held none = []
held (some p) = p ∷ []

-- What a poll does: it takes the oldest message, where there is one. `before` are buffers of the event loop.
abbrev pub Polled : System → Places → List Ptr → Run (Bool × Option Ptr) → Type 0
Polled w l before r =
    (current : Option Ptr) × (t : Server) × (xs : List Ptr) × (r ≡ ok (false, current) t)
    × IsSafe (record w { server = t })
        (record l { queued = xs; lost = before ++ (held current ++ l.lost) })

poll-running :
    (s : Server)
    → s.mq_flag ≡ false
    → poll s ≡ (on_mq Mq.mq_get >>= λ current. pure (false, current)) s
unfolding poll
poll-running s off = rw off refl

poll-run :
    (s t : Server) (current : Option Ptr)
    → s.mq_flag ≡ false
    → on_mq Mq.mq_get s ≡ ok current t
    → poll s ≡ ok (false, current) t
poll-run s t current off run =
    poll-running s off ∙ ap (λ r. and_then r λ current. pure (false, current)) run

pub poll-IsSafe :
    (w : System) (l : Places) (before : List Ptr)
    → IsSafe w (record l { lost = before ++ l.lost })
    → Polled w l before (poll w.server)
poll-IsSafe w l before g = elim (snoc-cases l.queued) [
  | inl e ↦ (
    none,
    w.server,
    l.queued,
    poll-run w.server w.server none g.flag (
        rw (mq_get-nil w.server.obd_mq (subst (λ q. IsQueue w.server.obd_mq q) e g.serving.queue))
          refl),
    g,
  )
  | inr (ys, y, e) ↦
      let hands = held_by w.hands in
      let busy = hands ++ (l.waiting ++ (before ++ l.lost)) in
      let (q, got, v) =
        mq_get-IsServing w.server y l.free ys busy
          (subst (λ q. IsServing w.server l.free [] q busy) e g.serving) in
      let t : Server = record w.server { obd_mq = q } in
      let m = busy-IsMessage t y l.free [] ys [] busy v in
      let v' =
        lost-given t y l.free ys hands l.waiting before l.lost
          (taken-IsServing t y l.free ys [] busy v) m in
      (
        some y,
        t,
        ys,
        poll-run w.server t (some y) g.flag got,
        placed-IsSafe w (record l { lost = before ++ l.lost }) w.hands t l.free ys
            (before ++ (y ∷ l.lost)) g
            (record { same_list = refl; same_ev = refl; same_pool = refl; same_flag = refl }) v',
      )
]

-- the buffers that a thread pool turned away, after one more was offered: it goes to them if no slot is free
abbrev pub turned_away : ThreadPool → Ptr → List Ptr → List Ptr
turned_away pool p lost = if pool.count == pool.queue_size then p ∷ lost else lost

-- What the end of a round does: the message is with a pending task, or with those that the thread pool turned away.
abbrev pub Offered : System → Places → List Ptr → Ptr → Run Bool → Type 0
Offered w l before p r =
    (t : Server) × (m : Places) × (r ≡ ok false t)
    × IsSafe (record w { server = t }) m
    × (m.lost ≡ before ++ turned_away w.server.thread_pool p l.lost)

offered_to :
    (w : System) (l : Places) (pool : ThreadPool) (waiting lost : List Ptr)
    → IsSafe w l
    → IsServing w.server l.free [] l.queued (held_by w.hands ++ (waiting ++ lost))
    → IsRing pool
    → pool.locked ≡ false
    → pool.shutdown ≡ w.server.thread_pool.shutdown
    → pending pool ≡ map (task_of obd_decode_thread) waiting
    → IsSafe (record w { server = with_pool w pool }) (record l { waiting = waiting; lost = lost })
offered_to w l pool waiting lost g v ring free same tasks = record {
  serving = with_pool-IsServing w pool l.free l.queued (held_by w.hands ++ (waiting ++ lost)) v;
  watching = record {
    pool = g.watching.pool;
    distinct = g.watching.distinct;
    inside = g.watching.inside;
    empty = g.watching.empty;
  };
  ring = ring;
  unlocked = free;
  on = same ∙ g.on;
  tasks = tasks;
  flag = g.flag;
}

pub offer-IsSafe :
    (w : System) (l : Places) (before : List Ptr) (p : Ptr)
    → IsSafe w (record l { lost = before ++ (p ∷ l.lost) })
    → Offered w l before p (hand_over all_ok (some p) w.server)
unfolding add_task
offer-IsSafe w l before p g =
    let pool = w.server.thread_pool in
    let cap = pool.queue_size in
    let task = task_of obd_decode_thread p in
    let hands = held_by w.hands in
    let (_, pool', added, offered, ring, free, same) =
      add-offer pool obd_decode_thread p g.ring g.unlocked in
    let now : pending pool' ≡ (offer cap true (map (task_of obd_decode_thread) l.waiting) task).1 =
      ap (λ r. r.1) offered
      ∙ (ap (λ sd. (offer cap (is_running sd) (pending pool) task).1) g.on
          ∙ ap (λ q. (offer cap true q task).1) g.tasks) in
    let counted : (pool.count == cap)
        ≡ (length (map (task_of obd_decode_thread) l.waiting) == cap) =
      ap (λ n. n == cap) (sym (length-pending pool) ∙ ap length g.tasks) in
    elim (Bool-cases (length (map (task_of obd_decode_thread) l.waiting) == cap)) [
      | inl full ↦ (
        with_pool w pool',
        record l { lost = before ++ (p ∷ l.lost) },
        rw added refl,
        offered_to w (record l { lost = before ++ (p ∷ l.lost) }) pool' l.waiting
            (before ++ (p ∷ l.lost)) g g.serving ring free same.same_shutdown (now ∙ rw full refl),
        rw (counted ∙ full) refl,
      )
      | inr room ↦
          let v = lost-taken w.server p l.free l.queued hands l.waiting before l.lost g.serving in
          let m =
            lost-IsMessage w.server p l.free l.queued hands l.waiting before l.lost g.serving in
          let busy = hands ++ (l.waiting ++ (before ++ l.lost)) in
          let v' = given-IsServing w.server p l.free l.queued [] busy v m in
          let (tasks, give) =
            room-Placed cap p (record l { lost = before ++ l.lost }) w.hands l.queued room in
          (
            with_pool w pool',
            record l { waiting = l.waiting ++ (p ∷ []); lost = before ++ l.lost },
            rw added refl,
            offered_to w (record l { lost = before ++ (p ∷ l.lost) }) pool' (l.waiting ++ (p ∷ []))
                (before ++ l.lost) g (give w.server v') ring free same.same_shutdown (now ∙ tasks),
            rw (counted ∙ room) refl,
          )
    ]
