-- ===== src/Mq/Empty.antt =====
-- `mq_is_empty`, and the mutex that it leaves behind.
use footprints_ev.Base.{◌≡◌, refl, sym, Bool, true, false, List, [], ◌∷◌, arith, ne→==_false, ◌==◌}
use footprints_ev.Mq.{Ptr, State, blocked, ok, mq_is_empty, mq_put, mq_get}
use footprints_ev.Mq.Chain.{NotIn, last, last-ne, PrevChain-last}
use footprints_ev.Mq.IsQueue.{IsQueue, Returns, returns}

abbrev pub is_nil : List Ptr → Bool
is_nil [] = true
is_nil (x ∷ xs) = false

prev-is_nil :
    (h : Ptr) (xs : List Ptr) (last' : Ptr)
    → NotIn h xs
    → last' ≡ last h xs
    → (last' == h) ≡ is_nil xs
prev-is_nil h [] l out e = rw e (ground arith)
prev-is_nil h (x ∷ xs) l out e =
    rw e (ne→==_false (last x xs) h (λ eq. last-ne h x xs out.0 out.1 (sym eq)))

mq_is_empty-run :
    (s : State)
    → s.locked ≡ false
    → s.heap.live s.list ≡ true
    → mq_is_empty s ≡ ok (s.heap.prev s.list == s.list) (record s { locked = true })
unfolding mq_is_empty
mq_is_empty-run s u l = ground arith

mq_put-locked : (n : Ptr) (s : State) → s.locked ≡ true → mq_put n s ≡ blocked
unfolding mq_put
mq_put-locked n s h = ground arith

mq_get-locked : (s : State) → s.locked ≡ true → mq_get s ≡ blocked
unfolding mq_get
mq_get-locked s h = ground arith

mq_is_empty-locked : (s : State) → s.locked ≡ true → mq_is_empty s ≡ blocked
unfolding mq_is_empty
mq_is_empty-locked s h = ground arith

-- On a well-formed queue `mq_is_empty` answers whether no message is queued and changes nothing but
-- the mutex, which it leaves held: `mq_put`, `mq_get` and `mq_is_empty` after it wait for ever.
pub mq_is_empty-blocks :
    (s : State) (xs : List Ptr)
    → IsQueue s xs
    → Returns
        (λ empty t.
          (empty ≡ is_nil xs)
          × (t ≡ record s { locked = true })
          × ((n : Ptr) → mq_put n t ≡ blocked)
          × (mq_get t ≡ blocked)
          × (mq_is_empty t ≡ blocked))
        (mq_is_empty s)
mq_is_empty-blocks s xs q =
    let e = PrevChain-last s.heap.prev s.list xs s.list q.prev_chain in
    let t : State = record s { locked = true } in
    rw (mq_is_empty-run s q.unlocked q.head_live) (
      returns (
        prev-is_nil s.list xs (s.heap.prev s.list) q.apart e,
        refl,
        (λ n. mq_put-locked n t refl),
        mq_get-locked t refl,
        mq_is_empty-locked t refl,
      ))
