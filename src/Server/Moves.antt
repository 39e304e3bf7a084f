-- ===== src/Server/Moves.antt =====
-- Buffers that change their place among those of the thread pool.
use footprints_ev.Base.{◌≡◌, sym, subst, true, some, List, [], ◌∷◌, ◌++◌, append_assoc}
use footprints_ev.Base.Distinct.{
  All, NotIn, Distinct, Distinct-remove, Distinct-insert, All-insert, All-remove, NotIn-insert,
  NotIn-suffix,
}
use footprints_ev.Obd.Bounds.{IsMessage}
use footprints_ev.Pool.{Ptr}
use footprints_ev.Pool.IsPool.{IsPool}
use footprints_ev.Server.{Server}
use footprints_ev.Server.Serving.{IsServing}

-- A place in a list moves to the front of a part of it.
module _ (p : Ptr) (bs us vs : List Ptr) where
  regroup : bs ++ (us ++ (p ∷ vs)) ≡ (bs ++ us) ++ (p ∷ vs)
  regroup = sym (append_assoc bs us (p ∷ vs))

  Distinct-front : Distinct (bs ++ (us ++ (p ∷ vs))) → Distinct (bs ++ (p ∷ (us ++ vs)))
  Distinct-front d =
      let (out, rest) = Distinct-remove p (bs ++ us) vs (subst Distinct regroup d) in
      let back = append_assoc bs us vs in
      Distinct-insert p bs (us ++ vs) (subst (NotIn p) back out) (subst Distinct back rest)

  All-front : (P : Ptr → Type 0) → All P (bs ++ (us ++ (p ∷ vs))) → All P (bs ++ (p ∷ (us ++ vs)))
  All-front P a =
      let (here, rest) = All-remove P p (bs ++ us) vs (subst (All P) regroup a) in
      All-insert P p bs (us ++ vs) here (subst (All P) (append_assoc bs us vs) rest)

  NotIn-front : (x : Ptr) → NotIn x (bs ++ (us ++ (p ∷ vs))) → NotIn x (bs ++ (p ∷ (us ++ vs)))
  NotIn-front x o =
      let (rest, ne, _) = NotIn-suffix x (bs ++ us) p vs (subst (NotIn x) regroup o) in
      NotIn-insert x p bs (us ++ vs) ne (subst (NotIn x) (append_assoc bs us vs) rest)

module _ (p : Ptr) (bs us vs : List Ptr) where
  ungroup : (bs ++ us) ++ (p ∷ vs) ≡ bs ++ (us ++ (p ∷ vs))
  ungroup = append_assoc bs us (p ∷ vs)

  Distinct-back : Distinct (bs ++ (p ∷ (us ++ vs))) → Distinct (bs ++ (us ++ (p ∷ vs)))
  Distinct-back d =
      let (out, rest) = Distinct-remove p bs (us ++ vs) d in
      let back = sym (append_assoc bs us vs) in
      subst Distinct ungroup
        (Distinct-insert p (bs ++ us) vs (subst (NotIn p) back out) (subst Distinct back rest))

  All-back : (P : Ptr → Type 0) → All P (bs ++ (p ∷ (us ++ vs))) → All P (bs ++ (us ++ (p ∷ vs)))
  All-back P a =
      let (here, rest) = All-remove P p bs (us ++ vs) a in
      subst (All P) ungroup
        (All-insert P p (bs ++ us) vs here (subst (All P) (sym (append_assoc bs us vs)) rest))

  NotIn-back : (x : Ptr) → NotIn x (bs ++ (p ∷ (us ++ vs))) → NotIn x (bs ++ (us ++ (p ∷ vs)))
  NotIn-back x o =
      let (rest, ne, _) = NotIn-suffix x bs p (us ++ vs) o in
      subst (NotIn x) ungroup
        (NotIn-insert x p (bs ++ us) vs ne (subst (NotIn x) (sym (append_assoc bs us vs)) rest))

-- a worker's buffer, as one that is held
pub taken-IsServing :
    (s : Server) (p : Ptr) (bs xs us vs : List Ptr)
    → IsServing s bs [] xs (us ++ (p ∷ vs))
    → IsServing s bs (p ∷ []) xs (us ++ vs)
taken-IsServing s p bs xs us vs v =
    let split = sym (append_assoc xs us (p ∷ vs)) in
    let join = append_assoc xs us vs in
    let pool = subst (IsPool s.obd_pool.heap s.obd_pool.pool bs) split v.pool in
    let Live : Ptr → Type 0 = λ b. s.obd_mq.heap.live b ≡ true in
    let Sized : Ptr → Type 0 = λ b. s.obd_pool.heap.size b ≡ some s.obd_pool.pool.block_size in
    let front = xs ++ us in
    record {
      pool = rw (sym join) (record {
        chain = pool.chain;
        distinct = Distinct-front p bs front vs pool.distinct;
        sized = All-front p bs front vs Sized pool.sized;
        room = pool.room;
        null_free = pool.null_free;
        head_live = pool.head_live;
        head_out = NotIn-front p bs front vs s.obd_pool.pool.head pool.head_out;
        owned = λ q o. pool.owned q (NotIn-back p bs front vs q o);
      });
      queue = v.queue;
      cells =
          rw (sym join)
            (All-front p bs front vs Live (subst (λ l. All Live (bs ++ l)) split v.cells));
      sentinel = rw (sym join) (
          NotIn-front p bs front vs s.obd_mq.list
            (subst (λ l. NotIn s.obd_mq.list (bs ++ l)) split v.sentinel));
      messages =
          rw (sym join)
            (All-remove (λ b. IsMessage (s.obds b)) p front vs
              (subst (All (λ b. IsMessage (s.obds b))) split v.messages)).1;
    }

-- and a held message, as one of a worker
pub given-IsServing :
    (s : Server) (p : Ptr) (bs xs us vs : List Ptr)
    → IsServing s bs (p ∷ []) xs (us ++ vs)
    → IsMessage (s.obds p)
    → IsServing s bs [] xs (us ++ (p ∷ vs))
given-IsServing s p bs xs us vs v m =
    let split = append_assoc xs us (p ∷ vs) in
    let join = sym (append_assoc xs us vs) in
    let pool = subst (λ l. IsPool s.obd_pool.heap s.obd_pool.pool bs (p ∷ l)) join v.pool in
    let Live : Ptr → Type 0 = λ b. s.obd_mq.heap.live b ≡ true in
    let Sized : Ptr → Type 0 = λ b. s.obd_pool.heap.size b ≡ some s.obd_pool.pool.block_size in
    let Good : Ptr → Type 0 = λ b. IsMessage (s.obds b) in
    let front = xs ++ us in
    record {
      pool = subst (IsPool s.obd_pool.heap s.obd_pool.pool bs) split (record {
        chain = pool.chain;
        distinct = Distinct-back p bs front vs pool.distinct;
        sized = All-back p bs front vs Sized pool.sized;
        room = pool.room;
        null_free = pool.null_free;
        head_live = pool.head_live;
        head_out = NotIn-back p bs front vs s.obd_pool.pool.head pool.head_out;
        owned = λ q o. pool.owned q (NotIn-front p bs front vs q o);
      });
      queue = v.queue;
      cells =
          subst (λ l. All Live (bs ++ l)) split
            (All-back p bs front vs Live (subst (λ l. All Live (bs ++ (p ∷ l))) join v.cells));
      sentinel =
          subst (λ l. NotIn s.obd_mq.list (bs ++ l)) split
            (NotIn-back p bs front vs s.obd_mq.list
              (subst (λ l. NotIn s.obd_mq.list (bs ++ (p ∷ l))) join v.sentinel));
      messages =
          subst (All Good) split (All-insert Good p front vs m (subst (All Good) join v.messages));
    }

-- each buffer with the pool is a message
pub busy-IsMessage :
    (s : Server) (p : Ptr) (bs ps xs us vs : List Ptr)
    → IsServing s bs ps xs (us ++ (p ∷ vs))
    → IsMessage (s.obds p)
busy-IsMessage s p bs ps xs us vs v =
    let Good : Ptr → Type 0 = λ b. IsMessage (s.obds b) in
    (All-remove Good p (xs ++ us) vs
      (subst (All Good) (sym (append_assoc xs us (p ∷ vs))) v.messages)).0

-- A buffer moves among those of the pool.
pub moved-IsServing :
    (s : Server) (p : Ptr) (bs xs us vs us' vs' : List Ptr)
    → us ++ vs ≡ us' ++ vs'
    → IsServing s bs [] xs (us ++ (p ∷ vs))
    → IsServing s bs [] xs (us' ++ (p ∷ vs'))
moved-IsServing s p bs xs us vs us' vs' e v =
    given-IsServing s p bs xs us' vs'
      (subst (IsServing s bs (p ∷ []) xs) e (taken-IsServing s p bs xs us vs v))
      (busy-IsMessage s p bs [] xs us vs v)
