-- ===== src/Server/Whole.antt =====
-- A message on its way through the server: event loop, queue, dispatcher, thread pool, decoder.
use footprints_ev.Base.{
  ℕ, ◌%◌, ◌<◌, ◌≡◌, ◌≢◌, refl, sym, ◌∙◌, ap, subst, true, false, some, none, List, [], ◌∷◌, arith,
  length, ne→==_false, mod-eq_of_lt,
}
use footprints_ev.Obd.{Obd}
use footprints_ev.Obd.Bounds.{IsSized}
use footprints_ev.Obd.Escape.{Bytes, chars, frame}
use footprints_ev.Obd.RoundTrip.{Holds, NonZero-frame, chars-frame}
use footprints_ev.Pool.{Ptr, null}
use footprints_ev.Server.{Server, ok}
use footprints_ev.Server.Messages.{read_func_cb, received, bytes, receive_into, read_message}
use footprints_ev.Server.Tasks.{dispatch, decode_thread, obd_decode_thread}
use footprints_ev.Server.Buffer.{text_length, text_length-all, receive_into-short}
use footprints_ev.Server.Serving.{IsServing}
use footprints_ev.Server.Serving.Lifetime.{obd_init-IsServing}
use footprints_ev.Server.Receive.{read_message-message}
use footprints_ev.Server.Dispatch.{dispatch-offer}
use footprints_ev.Server.Decode.{decode_thread-frame}
use footprints_ev.ThreadPool.{
  ThreadPool, Shutdown, running, thread_round, take, Task, Round, wait, leave, fault, is_running,
}
use footprints_ev.ThreadPool.Worker.{serve, work, meaning, thread_round-serve}
use footprints_ev.ThreadPool.Ring.{pending, IsRing}
use footprints_ev.ThreadPool.Enqueue.{all_ok, task_of, offer}

-- what a received frame leaves in its buffer
frame-Holds :
    (xs : List ℕ) (o : Obd) (id : ℕ)
    → IsSized o
    → length (chars (frame xs)) < 255
    → (rest : List ℕ) × Holds xs rest (record (receive_into (chars (frame xs)) o) {
      data_length = text_length (chars (frame xs)) % 256;
      id = id;
    })
frame-Holds xs o id s small =
    let text = chars (frame xs) in
    let (rest, e, size) = receive_into-short text o s (omega arith) in
    let all = text_length-all text (NonZero-frame xs) in
    let counted : text_length text % 256 ≡ length text =
      ap (λ n. n % 256) all ∙ mod-eq_of_lt (omega arith) in
    (
      rest,
      rw e (record {
        text = refl;
        counted = counted;
        fits = rw counted small;
        sized = record { data_size = size; hex_size = s.hex_size };
      }),
    )

received-text :
    (fd p : ℕ) (text : List ℕ)
    → 0 < length text
    → received fd p (bytes text) ≡ read_message fd p text
received-text fd p [] h = absurd (omega arith)
received-text fd p (b ∷ text) h = refl

-- A frame of at most 254 characters on an idle connection: `read_func_cb` queues it, in a buffer that holds it.
pub read_func_cb-Holds :
    (a fd : ℕ) (xs : List ℕ) (s : Server) (bs queued busy : List Ptr)
    → IsServing s bs [] queued busy
    → a ≢ null
    → s.obd_pool.heap.size a ≡ none
    → s.obd_mq.heap.live a ≡ true
    → a ≢ s.obd_mq.list
    → 0 < length (chars (frame xs))
    → length (chars (frame xs)) < 255
    → (p : Ptr) × (left : List Ptr) × (t : Server) × (rest : List ℕ) × (read_func_cb
          (some a)
          false
          fd
          (bytes (chars (frame xs)))
          s
        ≡ ok tt t)
      × IsServing t left [] (p ∷ queued) busy
      × Holds xs rest (t.obds p)
      × (t.mq_flag ≡ s.mq_flag)
      × (t.thread_pool ≡ s.thread_pool)
unfolding read_func_cb
read_func_cb-Holds a fd xs s bs queued busy v ne fresh live apart some' small =
    let (p, left, t, run, v', message, log, only) =
      obd_init-IsServing a s bs queued busy v ne fresh live apart in
    let text = chars (frame xs) in
    let all = text_length-all text (NonZero-frame xs) in
    let (u, id, run', v'', log', holds, only') =
      read_message-message fd p text t left queued busy v' message.sized (omega arith)
        (ground arith) in
    let (rest, h) = frame-Holds xs (t.obds p) id message.sized small in
    (
      p,
      left,
      u,
      rest,
      rw run (ap (λ c. c t) (received-text fd p text some') ∙ run'),
      v'',
      rw holds h,
      only'.same_flag ∙ only.same_flag,
      only'.same_pool ∙ only.same_pool,
    )

pub taken :
    (r : Round) (t : Task) (q : List Task)
    → meaning r ≡ some (work t q)
    → (pool : ThreadPool) × (r ≡ take t pool)
taken wait t q e = absurd (cc)
taken (leave pool) t q e = absurd (cc)
taken (take t' pool) t q e = (pool, cc)
taken fault t q e = absurd (cc)

-- a worker of a running pool takes the one task
take-one :
    (pool : ThreadPool) (t : Task)
    → IsRing pool
    → pool.locked ≡ false
    → pool.shutdown ≡ running
    → pending pool ≡ t ∷ []
    → (pool' : ThreadPool) × (thread_round pool ≡ take t pool')
take-one pool t ring free on one = taken (thread_round pool) t [] (
    thread_round-serve pool ring free
    ∙ (ap (λ s. some (serve s (pending pool))) on ∙ ap (λ q. some (serve running q)) one))

frame-nonempty : (xs : List ℕ) → 0 < length (chars (frame xs))
frame-nonempty xs = rw (chars-frame xs) (omega arith)

offer-idle :
    (cap : ℕ) (sd : Shutdown) (q : List Task) (task : Task)
    → q ≡ []
    → sd ≡ running
    → 0 < cap
    → (offer cap (is_running sd) q task).1 ≡ task ∷ []
offer-idle cap sd q task none_left on room =
    rw (none_left, on, ne→==_false 0 cap (λ e. omega arith)) refl

-- On an idle server (no message held, queued or pending, the thread pool running with room for a
-- task, memory for a buffer), a client sends the frame of a command 2, of at most 254 characters.
-- The event loop queues it, the dispatcher hands it to the thread pool, a worker takes it, prints
-- the four bytes of the client's id as they were sent, and gives the buffer back: afterwards no
-- buffer is held, queued or with a worker, and every buffer that was ever allocated is free.
pub frame-served :
    (a' fd a b c d : ℕ) (more : List ℕ) (s : Server) (bs : List Ptr)
    → IsServing s bs [] [] []
    → s.mq_flag ≡ false
    → IsRing s.thread_pool
    → s.thread_pool.locked ≡ false
    → s.thread_pool.shutdown ≡ running
    → pending s.thread_pool ≡ []
    → 0 < s.thread_pool.queue_size
    → a' ≢ null
    → s.obd_pool.heap.size a' ≡ none
    → s.obd_mq.heap.live a' ≡ true
    → a' ≢ s.obd_mq.list
    → Bytes (2 ∷ a ∷ b ∷ c ∷ d ∷ more)
    → length (chars (frame (2 ∷ a ∷ b ∷ c ∷ d ∷ more))) < 255
    → (p : Ptr) × (t u v : Server) × (pool : ThreadPool) × (free : List Ptr) × (read_func_cb
          (some a')
          false
          fd
          (bytes (chars (frame (2 ∷ a ∷ b ∷ c ∷ d ∷ more))))
          s
        ≡ ok tt t)
      × (dispatch all_ok t ≡ ok false u)
      × (thread_round u.thread_pool ≡ take (task_of obd_decode_thread p) pool)
      × (decode_thread 128 p (record u { thread_pool = pool })
          ≡ ok ((0, a) ∷ (1, b) ∷ (2, c) ∷ (3, d) ∷ []) v)
      × IsServing v free [] [] []
frame-served a' fd a b c d more s bs is off ring free on idle room ne fresh live apart small short =
    let xs = 2 ∷ a ∷ b ∷ c ∷ d ∷ more in
    let (p, left, t, rest, read, is', holds, flag, same) =
      read_func_cb-Holds a' fd xs s bs [] [] is ne fresh live apart (frame-nonempty xs) short in
    let (u, sent, is'', ring', offered, obds, free', on', _) =
      dispatch-offer t p left [] [] is' (flag ∙ off) (subst IsRing (sym same) ring)
        (ap (λ (x : ThreadPool). x.locked) same ∙ free) in
    let one : pending u.thread_pool ≡ task_of obd_decode_thread p ∷ [] =
      offered
      ∙ offer-idle t.thread_pool.queue_size t.thread_pool.shutdown (pending t.thread_pool)
          (task_of obd_decode_thread p) (ap pending same ∙ idle)
          (ap (λ (x : ThreadPool). x.shutdown) same ∙ on)
          (subst (λ x. 0 < x.queue_size) (sym same) room) in
    let (pool, round) =
      take-one u.thread_pool (task_of obd_decode_thread p) ring' free'
        (on' ∙ (ap (λ (x : ThreadPool). x.shutdown) same ∙ on)) one in
    let (v, decoded, is''') =
      decode_thread-frame (record u { thread_pool = pool }) p a b c d more rest left [] [] []
        (record {
          pool = is''.pool;
          queue = is''.queue;
          cells = is''.cells;
          sentinel = is''.sentinel;
          messages = is''.messages;
        })
        small (rw obds holds) in
    (p, t, u, v, pool, p ∷ left, read, sent, round, decoded, is''')
