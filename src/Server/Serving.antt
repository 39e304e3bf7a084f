-- ===== src/Server/Serving.antt =====
-- The buffers of the server: free in their pool, held by the running callback, queued, or with a worker.
pub mod Lifetime
use footprints_ev.Base.{
  ℕ, ◌≡◌, ◌≢◌, refl, sym, ap, subst, true, some, none, List, [], ◌∷◌, ◌++◌, update, update-ne,
  update_self, inl, inr, replicate, ne→==_false, length-replicate,
}
use footprints_ev.Base.Distinct.{
  NotIn, NotIn-left, NotIn-insert, NotIn-suffix, Distinct-suffix, All, All-insert, All-remove,
}
use footprints_ev.Mq
use footprints_ev.Mq.Chain.{NextChain-update, PrevChain-update}
use footprints_ev.Mq.IsQueue.{IsQueue, result, list_init_lem}
use footprints_ev.Mq.Put.{mq_put-cons}
use footprints_ev.Obd.{Obd, buf_size}
use footprints_ev.Obd.Bounds.{IsSized, IsMessage}
use footprints_ev.Pool.{Ptr, null}
use footprints_ev.Pool.IsPool.{IsPool, sized-ne-null}
use footprints_ev.Server.{Server, ok, with_obd, malloc_obd}
use footprints_ev.Server.Messages.{on_mq, from_mq, obd_init, obd_release}
use footprints_ev.Server.Frame.{OnlyMessages, OnlyConnections, SameLengths, update-SameLengths}
use footprints_ev.Server.Memory.{Grant, malloc_obd-some, free_obd-used}

-- `bs` are free, `ps` are with the running callback, `xs` are queued, newest first, and `busy` are
-- with the thread pool: each buffer that was allocated is in one of these lists, once. Each has a cell of its own, and
-- those queued or with the pool are messages.
pub record IsServing (s : Server) (bs ps xs busy : List Ptr) : Type 0 where
  pub pool : IsPool s.obd_pool.heap s.obd_pool.pool bs (ps ++ (xs ++ busy))
  pub queue : IsQueue s.obd_mq xs
  pub cells : All (λ p. s.obd_mq.heap.live p ≡ true) (bs ++ (ps ++ (xs ++ busy)))
  pub sentinel : NotIn s.obd_mq.list (bs ++ (ps ++ (xs ++ busy)))
  pub messages : All (λ p. IsMessage (s.obds p)) (xs ++ busy)

-- a call that leaves the buffers alone keeps it
pub IsServing-kept :
    {s t : Server} {bs ps xs busy : List Ptr}
    → OnlyConnections s t
    → IsServing s bs ps xs busy
    → IsServing t bs ps xs busy
IsServing-kept same v = record {
  pool = rw same.same_obd v.pool;
  queue = rw same.same_mq v.queue;
  cells = rw same.same_mq v.cells;
  sentinel = rw same.same_mq v.sentinel;
  messages = rw same.same_obds v.messages;
}

-- what the invariant says of a buffer that the callback holds
pub record Held (s : Server) (p : Ptr) (xs busy : List Ptr) : Type 0 where
  pub elsewhere : NotIn p (xs ++ busy)
  pub outside : NotIn p xs
  pub apart : p ≢ s.obd_mq.list
  pub live : s.obd_mq.heap.live p ≡ true
  pub at : p ≢ null

pub held :
    (s : Server) (p : Ptr) (bs xs busy : List Ptr)
    → IsServing s bs (p ∷ []) xs busy
    → Held s p xs busy
held s p bs xs busy v =
    let (_, out, _) = Distinct-suffix bs p (xs ++ busy) v.pool.distinct in
    let (size, _) =
      All-remove (λ b. s.obd_pool.heap.size b ≡ some s.obd_pool.pool.block_size) p bs (xs ++ busy)
        v.pool.sized in
    record {
      elsewhere = out;
      outside = NotIn-left p xs busy out;
      apart = λ e. (NotIn-suffix s.obd_mq.list bs p (xs ++ busy) v.sentinel).1 (sym e);
      live = (All-remove (λ b. s.obd_mq.heap.live b ≡ true) p bs (xs ++ busy) v.cells).0;
      at = sized-ne-null s.obd_pool.heap p s.obd_pool.pool.block_size size v.pool.null_free;
    }

All-update :
    (P : Obd → Type 0) (obds : Ptr → Obd) (p : Ptr) (o : Obd) (xs : List Ptr)
    → NotIn p xs
    → All (λ x. P (obds x)) xs
    → All (λ x. P (update obds p o x)) xs
All-update P obds p o [] out a = tt
All-update P obds p o (x ∷ xs) out a = (
  subst P (sym (update-ne obds p o x (λ e. out.0 (sym e)))) a.0,
  All-update P obds p o xs out.1 a.1,
)

-- a write to a held buffer
pub set_obd-IsServing :
    (s : Server) (p : Ptr) (o : Obd) (bs xs busy : List Ptr)
    → IsServing s bs (p ∷ []) xs busy
    → IsServing (record s { obds = update s.obds p o }) bs (p ∷ []) xs busy
set_obd-IsServing s p o bs xs busy v = record {
  pool = v.pool;
  queue = v.queue;
  cells = v.cells;
  sentinel = v.sentinel;
  messages =
      All-update IsMessage s.obds p o (xs ++ busy) (held s p bs xs busy v).elsewhere v.messages;
}

-- the queue after `list_init` of a cell
abbrev pub unlinked : Ptr → Mq.State → Mq.State
unlinked p q = record q {
  heap = record q.heap { next = update q.heap.next p p; prev = update q.heap.prev p p };
}

pub list_init-held :
    (s : Server) (p : Ptr) (bs xs busy : List Ptr)
    → IsServing s bs (p ∷ []) xs busy
    → (on_mq (Mq.list_init p) s ≡ ok tt (record s { obd_mq = unlinked p s.obd_mq }))
      × IsServing (record s { obd_mq = unlinked p s.obd_mq }) bs (p ∷ []) xs busy
list_init-held s p bs xs busy v =
    let h = held s p bs xs busy v in
    let q = s.obd_mq in
    (
      rw (list_init_lem p q h.live) refl,
      record {
        pool = v.pool;
        queue = record {
          next_chain =
              NextChain-update p p q.heap.next q.list xs q.list h.apart h.outside
                v.queue.next_chain;
          prev_chain =
              PrevChain-update p p q.heap.prev q.list xs q.list h.apart h.outside
                v.queue.prev_chain;
          apart = v.queue.apart;
          distinct = v.queue.distinct;
          head_live = v.queue.head_live;
          live = v.queue.live;
          counted = v.queue.counted;
          unlocked = v.queue.unlocked;
        };
        cells = v.cells;
        sentinel = v.sentinel;
        messages = v.messages;
      },
    )

-- a held message goes to the front of the queue
pub mq_put-held :
    (s : Server) (p : Ptr) (bs xs busy : List Ptr)
    → IsServing s bs (p ∷ []) xs busy
    → IsMessage (s.obds p)
    → (q : Mq.State) × (on_mq (Mq.mq_put p) s ≡ ok tt (record s { obd_mq = q }))
      × IsServing (record s { obd_mq = q }) bs [] (p ∷ xs) busy
mq_put-held s p bs xs busy v m =
    let h = held s p bs xs busy v in
    let (_, q, run, (is, same)) =
      result (mq_put-cons p s.obd_mq xs v.queue h.live h.apart h.outside) in
    (
      q,
      ap (from_mq s) run,
      record {
        pool = v.pool;
        queue = is;
        cells = rw same.same_live v.cells;
        sentinel = rw same.same_list v.sentinel;
        messages = (m, v.messages);
      },
    )
