-- ===== src/Mq/Put.antt =====
-- `mq_put` adds a message at the front.
use footprints_ev.Base.{
  ◌+◌, ◌%◌, ◌^◌, ◌≡◌, ◌≢◌, refl, sym, ◌∙◌, subst, true, false, List, [], ◌∷◌, arith, update,
  update_self, update-ne,
}
use footprints_ev.Mq.{Ptr, State, ok, mq_put}
use footprints_ev.Mq.Chain.{
  NextChain, PrevChain, NotIn, Distinct, NextChain-update, PrevChain-update, NextChain-restart,
  first, NextChain-first,
}
use footprints_ev.Mq.IsQueue.{IsQueue, Touches, Returns, returns}

-- the state after `mq_put n` in terms of the state before
abbrev after_put : Ptr → State → State
after_put n s = record s {
  heap = record s.heap {
    next = update (update s.heap.next n (s.heap.next s.list)) s.list n;
    prev = update (update s.heap.prev (s.heap.next s.list) n) n s.list;
  };
  size = (s.size + 1) % 2 ^ 32;
  locked = false;
}

mq_put-run :
    (n : Ptr) (s : State)
    → s.locked ≡ false
    → s.heap.live s.list ≡ true
    → s.heap.live n ≡ true
    → s.heap.live (s.heap.next s.list) ≡ true
    → n ≢ s.list
    → mq_put n s ≡ ok tt (after_put n s)
unfolding mq_put
mq_put-run n s u l ln lf ne = ground arith

first-live : (s : State) (xs : List Ptr) → IsQueue s xs → s.heap.live (s.heap.next s.list) ≡ true
first-live s [] q = rw q.next_chain q.head_live
first-live s (x ∷ xs) q = rw q.next_chain.0 q.live.0

put-next :
    (n h : Ptr) (xs : List Ptr) (next : Ptr → Ptr)
    → n ≢ h
    → NotIn n xs
    → NotIn h xs
    → NextChain next h xs h
    → NextChain (update (update next n (next h)) h n) h (n ∷ xs) h
put-next n h xs next ne out out' c =
    let flip : h ≢ n = λ e. ne (sym e) in
    let next' : Ptr → Ptr = update next n (next h) in
    let kept = NextChain-update n (next h) next h xs h ne out c in
    let start : next' n ≡ next' h =
      update_self next n (next h) ∙ sym (update-ne next n (next h) h flip) in
    (
      update_self next' h n,
      NextChain-update h n next' n xs h flip out' (NextChain-restart next' h n xs h start kept),
    )

put-prev :
    (n h : Ptr) (xs : List Ptr) (prev : Ptr → Ptr)
    → n ≢ h
    → NotIn n xs
    → Distinct xs
    → NotIn h xs
    → PrevChain prev h xs h
    → PrevChain (update (update prev (first h xs) n) n h) h (n ∷ xs) h
put-prev n h [] prev ne out d out' b = (
  update_self (update prev h n) n h,
  update-ne (update prev h n) n h h (λ e. ne (sym e)) ∙ update_self prev h n,
)
put-prev n h (x ∷ xs) prev ne out d out' b = (
  update_self (update prev x n) n h,
  (
    update-ne (update prev x n) n h x (λ e. out.0 (sym e)) ∙ update_self prev x n,
    PrevChain-update n h (update prev x n) x xs h ne out.1
        (PrevChain-update x n prev x xs h (λ e. out'.0 (sym e)) d.0 b.1),
  ),
)

first-eq :
    (p h : Ptr) (xs : List Ptr) (next : Ptr → Ptr)
    → p ≢ h
    → NotIn p xs
    → NextChain next h xs h
    → p ≢ next h
first-eq p h [] next ne out c = rw c ne
first-eq p h (x ∷ xs) next ne out c = rw c.0 out.0

-- `mq_put` of a live cell that is not queued adds it in front of the queue, counts it modulo 2^32,
-- releases the mutex, and writes no other cell but the sentinel and the queued ones.
pub mq_put-cons :
    (n : Ptr) (s : State) (xs : List Ptr)
    → IsQueue s xs
    → s.heap.live n ≡ true
    → n ≢ s.list
    → NotIn n xs
    → Returns (λ _ t. IsQueue t (n ∷ xs) × Touches (n ∷ xs) s t) (mq_put n s)
mq_put-cons n s xs q l ne out =
    rw (mq_put-run n s q.unlocked q.head_live l (first-live s xs q) ne) (
      returns (
        record {
          next_chain = put-next n s.list xs s.heap.next ne out q.apart q.next_chain;
          prev_chain =
              subst
                (λ f. PrevChain (update (update s.heap.prev f n) n s.list) s.list (n ∷ xs) s.list)
                (sym (NextChain-first s.list s.list xs s.heap.next q.next_chain))
                (put-prev n s.list xs s.heap.prev ne out q.distinct q.apart q.prev_chain);
          apart = (λ e. ne (sym e), q.apart);
          distinct = (out, q.distinct);
          head_live = q.head_live;
          live = (l, q.live);
          counted = omega (arith, q.counted);
          unlocked = refl;
        },
        record {
          same_list = refl;
          same_live = refl;
          next_frame = λ p ph o. ground arith;
          prev_frame =
              λ p ph o. ground (arith, first-eq p s.list xs s.heap.next ph o.1 q.next_chain);
        },
      ))
