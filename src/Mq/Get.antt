-- ===== src/Mq/Get.antt =====
-- `mq_get` takes the oldest message from the back.
use footprints_ev.Base.{
  ℕ, Bool, ◌%◌, ◌^◌, ◌≡◌, ◌≢◌, refl, sym, ◌∙◌, true, false, none, some, List, [], ◌∷◌, ◌++◌, arith,
  length, length-append, update, update_self, update-ne,
}
use footprints_ev.Mq.{Ptr, State, ok, dec32, mq_get}
use footprints_ev.Mq.Chain.{
  last, last-ne, NextChain-update, PrevChain-update, NextChain-cut, PrevChain-cut, PrevChain-init,
  PrevChain-last, NotIn-init, Distinct-init,
}
use footprints_ev.Mq.IsQueue.{IsQueue, Touches, Returns, returns, AllLive}

-- On an empty queue `mq_get` returns NULL, and leaves the whole state as it was.
pub mq_get-nil : (s : State) → IsQueue s [] → mq_get s ≡ ok none s
unfolding mq_get
mq_get-nil s q = ground (arith, q.prev_chain)

-- the state after `mq_get` of `x`, whose `prev` was `p`
abbrev after_get : Ptr → Ptr → State → State
after_get x p s = record s {
  heap = record s.heap {
    next = update (update s.heap.next p s.list) x x;
    prev = update (update s.heap.prev s.list p) x x;
  };
  size = dec32 s.size;
  locked = false;
}

mq_get-run :
    (x p : Ptr) (s : State)
    → s.locked ≡ false
    → s.heap.live s.list ≡ true
    → s.heap.live x ≡ true
    → s.heap.live p ≡ true
    → s.heap.prev s.list ≡ x
    → s.heap.prev x ≡ p
    → x ≢ s.list
    → mq_get s ≡ ok (some x) (after_get x p s)
unfolding mq_get
mq_get-run x p s u l lx lp ex ep ne = ground arith

AllLive-init :
    (live : Ptr → Bool) (x : Ptr) (xs : List Ptr)
    → AllLive live (xs ++ (x ∷ []))
    → AllLive live xs × (live x ≡ true)
AllLive-init live x [] l = (tt, l.0)
AllLive-init live x (y ∷ xs) l = let rest = AllLive-init live x xs l.1 in ((l.0, rest.0), rest.1)

AllLive-last :
    (live : Ptr → Bool) (a : Ptr) (xs : List Ptr)
    → live a ≡ true
    → AllLive live xs
    → live (last a xs) ≡ true
AllLive-last live a [] la l = la
AllLive-last live a (x ∷ xs) la l = AllLive-last live x xs l.0 l.1

length-snoc-mod :
    (n : ℕ) (x : Ptr) (xs : List Ptr)
    → n ≡ length (xs ++ (x ∷ [])) % 2 ^ 32
    → dec32 n ≡ length xs % 2 ^ 32
length-snoc-mod n x xs e = omega (arith, length-append xs (x ∷ []))

-- On a queue whose oldest message is `x`, `mq_get` returns it, leaves the others queued in order,
-- makes `x` its own neighbour, counts down modulo 2^32, releases the mutex, and writes no other cell
-- but the sentinel and the queued ones.
pub mq_get-snoc :
    (x : Ptr) (s : State) (xs : List Ptr)
    → IsQueue s (xs ++ (x ∷ []))
    → Returns
        (λ r t.
          (r ≡ some x)
          × IsQueue t xs
          × (t.heap.next x ≡ x)
          × (t.heap.prev x ≡ x)
          × Touches (xs ++ (x ∷ [])) s t)
        (mq_get s)
mq_get-snoc x s xs q =
    let (prevs, ex) = PrevChain-init s.heap.prev s.list xs x s.list q.prev_chain in
    let (out, ne) = NotIn-init s.list x xs q.apart in
    let (distinct, fresh) = Distinct-init x xs q.distinct in
    let (live, lx) = AllLive-init s.heap.live x xs q.live in
    let p : Ptr = last s.list xs in
    let ep = PrevChain-last s.heap.prev s.list xs x prevs in
    let lp = AllLive-last s.heap.live s.list xs q.head_live live in
    rw (mq_get-run x p s q.unlocked q.head_live lx lp ex ep (λ e. ne (sym e))) (
      returns (
        refl,
        record {
          next_chain =
              NextChain-update x x (update s.heap.next p s.list) s.list xs s.list (λ e. ne (sym e))
                fresh
                (NextChain-cut s.heap.next s.list xs x s.list s.list out distinct q.next_chain);
          prev_chain =
              PrevChain-update x x (update s.heap.prev s.list p) s.list xs s.list (λ e. ne (sym e))
                fresh (PrevChain-cut s.heap.prev s.list xs x s.list out prevs);
          apart = out;
          distinct = distinct;
          head_live = q.head_live;
          live = live;
          counted = length-snoc-mod s.size x xs q.counted;
          unlocked = refl;
        },
        update_self (update s.heap.next p s.list) x x,
        update_self (update s.heap.prev s.list p) x x,
        record {
          same_list = refl;
          same_live = refl;
          next_frame = λ a ah o.
              let (oxs, ox) = NotIn-init a x xs o in
              update-ne (update s.heap.next p s.list) x x a ox
              ∙ update-ne s.heap.next p s.list a (last-ne a s.list xs ah oxs);
          prev_frame = λ a ah o.
              let (oxs, ox) = NotIn-init a x xs o in
              update-ne (update s.heap.prev s.list p) x x a ox
              ∙ update-ne s.heap.prev s.list p a ah;
        },
      ))
