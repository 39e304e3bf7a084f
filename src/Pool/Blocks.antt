-- ===== src/Pool/Blocks.antt =====
-- `Malloc` and `Free` move a block between the pool and its users.
use footprints_ev.Base.{
  ℕ, ◌≡◌, ◌≢◌, refl, sym, ◌∙◌, subst, Option, none, some, List, [], ◌∷◌, ◌++◌, append_assoc, arith,
  update, update-ne, update_self, ne→==_false,
}
use footprints_ev.Base.Distinct.{
  NotIn, Distinct, All, Distinct-insert, Distinct-remove, NotIn-left, NotIn-suffix, NotIn-insert,
  All-insert, All-remove,
}
use footprints_ev.Pool.{Ptr, null, Heap, MemoryPool, ok, fault, allocate, malloc, free}
use footprints_ev.Pool.IsPool.{IsPool, sized-ne-null, holds_node-sized, FreeChain-update}

-- With a free block, `Malloc` hands out the one that was freed last and asks the system for nothing.
pub malloc-pop :
    (fresh : Option Ptr) (h : Heap) (pool : MemoryPool) (b : Ptr) (bs used : List Ptr)
    → IsPool h pool (b ∷ bs) used
    → (pool' : MemoryPool) × (malloc fresh h pool ≡ ok (b, h, pool'))
      × IsPool h pool' bs (b ∷ used)
      × (pool'.block_size ≡ pool.block_size)
unfolding malloc
malloc-pop fresh h pool b bs used v =
    let ne = sized-ne-null h b pool.block_size v.sized.0 v.null_free in
    let fits = holds_node-sized h b pool.block_size v.sized.0 v.room in
    (
      record pool { first_available = h.next pool.first_available },
      rw (v.chain.0, ne→==_false b null ne, fits),
      record {
        chain = rw v.chain.0 v.chain.1;
        distinct = Distinct-insert b bs used v.distinct.0 v.distinct.1;
        sized = All-insert (λ c. h.size c ≡ some pool.block_size) b bs used v.sized.0 v.sized.1;
        room = v.room;
        null_free = v.null_free;
        head_live = v.head_live;
        head_out = NotIn-insert pool.head b bs used v.head_out.0 v.head_out.1;
        owned = λ p o apart.
            let (rest, ne, _) = NotIn-suffix p bs b used o in v.owned p (ne, rest) apart;
      },
      refl,
    )

NotIn-sized :
    (h : Heap) (a n : ℕ) (xs : List Ptr)
    → h.size a ≡ none
    → All (λ c. h.size c ≡ some n) xs
    → NotIn a xs
NotIn-sized h a n [] z s = tt
NotIn-sized h a n (x ∷ xs) z s = ((λ e. ground arith), NotIn-sized h a n xs z s.1)

sized-allocate :
    (h : Heap) (a m n : ℕ) (xs : List Ptr)
    → NotIn a xs
    → All (λ c. h.size c ≡ some n) xs
    → All (λ c. (allocate h a m).size c ≡ some n) xs
sized-allocate h a m n [] o s = tt
sized-allocate h a m n (x ∷ xs) o s =
    (update-ne h.size a (some m) x (λ e. o.0 (sym e)) ∙ s.0, sized-allocate h a m n xs o.1 s.1)

-- Without a free block, `Malloc` hands out a new block of the system's, with the pool's size.
pub malloc-fresh :
    (a : Ptr) (h : Heap) (pool : MemoryPool) (used : List Ptr)
    → IsPool h pool [] used
    → a ≢ null
    → h.size a ≡ none
    → (malloc (some a) h pool ≡ ok (a, allocate h a pool.block_size, pool))
      × IsPool (allocate h a pool.block_size) pool [] (a ∷ used)
unfolding malloc
malloc-fresh a h pool used v ne new =
    let out = NotIn-sized h a pool.block_size used new v.sized in
    let apart : pool.head ≢ a = λ e. let live = v.head_live in ground arith in
    (
      rw v.chain,
      record {
        chain = v.chain;
        distinct = (out, v.distinct);
        sized = (
          update_self h.size a (some pool.block_size),
          sized-allocate h a pool.block_size pool.block_size used out v.sized,
        );
        room = v.room;
        null_free = update-ne h.size a (some pool.block_size) null (λ e. ne (sym e)) ∙ v.null_free;
        head_live = update-ne h.size a (some pool.block_size) pool.head apart ∙ v.head_live;
        head_out = (apart, v.head_out);
        owned = λ p o far. update-ne h.size a (some pool.block_size) p o.0 ∙ v.owned p o.1 far;
      },
    )

-- With neither a free block nor memory, `Malloc` returns NULL and changes nothing.
pub malloc-null :
    (h : Heap) (pool : MemoryPool) (used : List Ptr)
    → IsPool h pool [] used
    → malloc none h pool ≡ ok (null, h, pool)
unfolding malloc
malloc-null h pool used v = rw v.chain

-- `Free` of a block in use puts it in front of the free list.
pub free-push :
    (h : Heap) (pool : MemoryPool) (b : Ptr) (bs us vs : List Ptr)
    → IsPool h pool bs (us ++ (b ∷ vs))
    → (h' : Heap) × (pool' : MemoryPool) × (free h pool b ≡ ok (h', pool'))
      × IsPool h' pool' (b ∷ bs) (us ++ vs)
      × (pool'.block_size ≡ pool.block_size)
unfolding free
free-push h pool b bs us vs v =
    let regroup = sym (append_assoc bs us (b ∷ vs)) in
    let back = append_assoc bs us vs in
    let (out, distinct) = Distinct-remove b (bs ++ us) vs (subst Distinct regroup v.distinct) in
    let Sized : Ptr → Type 0 = λ c. h.size c ≡ some pool.block_size in
    let (size, sized) = All-remove Sized b (bs ++ us) vs (subst (All Sized) regroup v.sized) in
    let (head_out, apart, _) =
      NotIn-suffix pool.head (bs ++ us) b vs (subst (NotIn pool.head) regroup v.head_out) in
    let out' = subst (NotIn b) back out in
    (
      record h { next = update h.next b pool.first_available },
      record pool { first_available = b },
      rw (holds_node-sized h b pool.block_size size v.room),
      record {
        chain = (
          refl,
          rw (update_self h.next b pool.first_available) (
              FreeChain-update h.next pool.first_available b pool.first_available bs
                (NotIn-left b bs (us ++ vs) out') v.chain),
        );
        distinct = (out', subst Distinct back distinct);
        sized = (size, subst (All Sized) back sized);
        room = v.room;
        null_free = v.null_free;
        head_live = v.head_live;
        head_out = (apart, subst (NotIn pool.head) back head_out);
        owned = λ p o far.
            v.owned p
              (subst (NotIn p) (sym regroup)
                (NotIn-insert p b (bs ++ us) vs o.0 (subst (NotIn p) (sym back) o.1)))
              far;
      },
      refl,
    )

-- `Free` of what is not an allocated block, NULL among them, writes through a bad pointer.
pub free-fault : (h : Heap) (pool : MemoryPool) (p : Ptr) → h.size p ≡ none → free h pool p ≡ fault
unfolding free
free-fault h pool p e = rw e
