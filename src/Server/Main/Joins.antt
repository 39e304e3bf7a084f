-- ===== src/Server/Main/Joins.antt =====
-- The joins of `threadpool_destroy` at the end of `main`.
use footprints_ev.Base.{ℕ, ◌≡◌, refl, sym, ◌∙◌, ap, subst, Bool, false, some, List, [], ◌∷◌, ◌++◌}
use footprints_ev.Base.Distinct.{All}
use footprints_ev.Pool.{Ptr}
use footprints_ev.Server.{Server, ok}
use footprints_ev.Server.Decode.{decode_thread-IsServing}
use footprints_ev.Server.Main.{join_hands}
use footprints_ev.Server.Main.Locked.{held_up, SamePool, Follows, decode_thread-Steady}
use footprints_ev.Server.Serving.{IsServing}
use footprints_ev.Server.System.{Hand, idle, decoding, left}
use footprints_ev.Server.System.Drain.{give_back, Short, still-Short}
use footprints_ev.Server.System.Safe.{held_by}
use footprints_ev.Server.Tasks.{decode_thread}
use footprints_ev.ThreadPool
use footprints_ev.ThreadPool.{ThreadPool, Round, running, immediate_shutdown, thread_round}
use footprints_ev.ThreadPool.Ring.{IsRing, pending}
use footprints_ev.ThreadPool.Worker.{quit, serve, meaning, thread_round-serve, leave-counts}

quits : (r : Round) → meaning r ≡ some quit → (pool : ThreadPool) × (r ≡ ThreadPool.leave pool)
quits ThreadPool.wait e = absurd (cc)
quits (ThreadPool.leave pool) e = (pool, refl)
quits (ThreadPool.take t pool) e = absurd (cc)
quits ThreadPool.fault e = absurd (cc)

-- the pool in an immediate shutdown
pub record IsClosing (pool : ThreadPool) : Type 0 where
  pub ring : IsRing pool
  pub unlocked : pool.locked ≡ false
  pub closing : pool.shutdown ≡ immediate_shutdown

leaves :
    (pool : ThreadPool)
    → IsClosing pool
    → (pool' : ThreadPool) × (thread_round pool ≡ ThreadPool.leave pool') × IsClosing pool'
leaves pool c =
    let served =
      thread_round-serve pool c.ring c.unlocked
      ∙ ap (λ s. some (serve s (pending pool))) c.closing in
    let (pool', left') = quits (thread_round pool) served in
    let (_, now) = leave-counts pool c.ring c.unlocked pool' left' in
    (
      pool',
      left',
      rw now (record {
        ring = record {
          storage = c.ring.storage;
          head_in = c.ring.head_in;
          count_in = c.ring.count_in;
          tail_at = c.ring.tail_at;
        };
        unlocked = c.unlocked;
        closing = c.closing;
      }),
    )

-- the invariant of the buffers does not speak of the flag and of the thread pool
pub ending-IsServing :
    (s : Server) (pool : ThreadPool) (flag : Bool) (bs xs busy : List Ptr)
    → IsServing s bs [] xs busy
    → IsServing (record s { mq_flag = flag; thread_pool = pool }) bs [] xs busy
ending-IsServing s pool flag bs xs busy v = record {
  pool = v.pool;
  queue = v.queue;
  cells = v.cells;
  sentinel = v.sentinel;
  messages = v.messages;
}

-- the workers are past their loops, and what they held is given back
abbrev pub Joined : List Hand → Server → List Ptr → List Ptr → Type 0
Joined hs v bs busy =
    (t : Server) × (join_hands hs (held_up v) ≡ ok tt (held_up t))
    × IsServing t (give_back (held_by hs) bs) [] [] busy
    × SamePool v t
    × (t.ev_pool ≡ v.ev_pool)

then-Joined :
    (hs : List Hand) (v u : Server) (bs busy : List Ptr)
    → SamePool v u
    → u.ev_pool ≡ v.ev_pool
    → Joined hs u bs busy
    → (t : Server) × (join_hands hs (held_up u) ≡ ok tt (held_up t))
      × IsServing t (give_back (held_by hs) bs) [] [] busy
      × SamePool v t
      × (t.ev_pool ≡ v.ev_pool)
then-Joined hs v u bs busy same same_ev (t, run, serving, same', same_ev') =
    (t, run, serving, (same'.0 ∙ same.0, same'.1 ∙ same.1), same_ev' ∙ same_ev)

-- a worker ends its task, leaves, and the others follow
join-decoding :
    (p : Ptr) (hs : List Hand) (s t : Server) (out : List (ℕ × ℕ)) (pool : ThreadPool)
    → decode_thread 128 p s ≡ ok out t
    → thread_round t.thread_pool ≡ ThreadPool.leave pool
    → join_hands (decoding p ∷ hs) s ≡ join_hands hs (record t { thread_pool = pool })
unfolding join_hands
join-decoding p hs s t out pool run gone = rw (run, gone) refl

-- The workers end their tasks and leave, with the mutex of the queue held, where the pool is in an immediate
-- shutdown and no task is endless.
pub hands_leave :
    (hs : List Hand) (v : Server) (bs busy : List Ptr)
    → IsServing v bs [] [] (held_by hs ++ busy)
    → All (Short v.obds) (held_by hs)
    → IsClosing v.thread_pool
    → Joined hs v bs busy
unfolding join_hands
hands_leave [] v bs busy serving short c = (v, refl, serving, (refl, refl), refl)
hands_leave (idle ∷ hs) v bs busy serving short c =
    let (pool, gone, c') = leaves v.thread_pool c in
    let u : Server = record v { thread_pool = pool } in
    let (t, rest, serving', same, same_ev) =
      hands_leave hs u bs busy
        (ending-IsServing v pool v.mq_flag bs [] (held_by hs ++ busy) serving) short c' in
    (t, rw gone rest, serving', same, same_ev)
hands_leave (decoding p ∷ hs) v bs busy serving (short, others) c =
    let (out, t, run, serving', log, only, lengths) =
      decode_thread-IsServing v p bs [] [] (held_by hs ++ busy) serving serving.messages.0 short in
    let (same_run, same) =
      subst (λ r. Follows v r (decode_thread 128 p (held_up v))) run
        (decode_thread-Steady 128 p v) in
    let (pool, gone, c') = leaves t.thread_pool (subst IsClosing (sym only.same_pool) c) in
    let u : Server = record t { thread_pool = pool } in
    let (t', rest, serving'', same', same_ev) = then-Joined hs v u (p ∷ bs) busy same only.same_ev (
      hands_leave hs u (p ∷ bs) busy
        (ending-IsServing t pool t.mq_flag (p ∷ bs) [] (held_by hs ++ busy) serving')
        (still-Short v.obds t.obds (held_by hs) lengths others) c') in
    (
      t',
      join-decoding p hs (held_up v) (held_up t) out pool same_run gone ∙ rest,
      serving'',
      same',
      same_ev,
    )
hands_leave (left ∷ hs) v bs busy serving short c = hands_leave hs v bs busy serving short c
