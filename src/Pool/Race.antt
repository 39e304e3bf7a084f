-- ===== src/Pool/Race.antt =====
-- `Free` in a worker against `Malloc` on the event loop: main-ev.c calls both on one pool without a lock.
use footprints_ev.Base.{
  ◌≡◌, refl, sym, subst, append_assoc, Option, List, ◌∷◌, ◌++◌, update, update_self, ne→==_false,
  if◌then◌else◌, some,
}
use footprints_ev.Base.Distinct.{All, All-remove}
use footprints_ev.Pool.{Ptr, null, Heap, MemoryPool, Run, ok, fault, malloc, free, holds_node}
use footprints_ev.Pool.IsPool.{IsPool, sized-ne-null, holds_node-sized}

-- the first assignment of `Free`: `pNext = pFirstAvailable`
unfoldable pub free_link : Heap → MemoryPool → Ptr → Run Heap
free_link h pool p =
    if holds_node (h.size p)
    then ok (record h { next = update h.next p pool.first_available })
    else fault

-- and the second
unfoldable pub free_push : MemoryPool → Ptr → MemoryPool
free_push pool p = record pool { first_available = p }

-- `Free` of a block in use is its two assignments. Where a `Malloc` comes between them and takes the free block `a`, the
-- second assignment puts `a` back on the free list: of the next two calls of `Malloc`, the first
-- hands out the freed block, and the second hands out `a` again, which nobody has given back.
pub malloc-twice :
    (h : Heap) (pool : MemoryPool) (a p : Ptr) (bs us vs : List Ptr) (x y z : Option Ptr)
    → IsPool h pool (a ∷ bs) (us ++ (p ∷ vs))
    → (h' : Heap) × (before after last : MemoryPool) × (free_link h pool p ≡ ok h')
      × (free h pool p ≡ ok (h', free_push pool p))
      × (malloc x h' pool ≡ ok (a, h', before))
      × (malloc y h' (free_push before p) ≡ ok (p, h', after))
      × (malloc z h' after ≡ ok (a, h', last))
unfolding free_link free_push malloc free
malloc-twice h pool a p bs us vs x y z v =
    let Sized : Ptr → Type 0 = λ b. h.size b ≡ some pool.block_size in
    let size = v.sized.0 in
    let (size', _) =
      All-remove Sized p ((a ∷ bs) ++ us) vs
        (subst (All Sized) (sym (append_assoc (a ∷ bs) us (p ∷ vs))) v.sized) in
    let fits = holds_node-sized h a pool.block_size size v.room in
    let fits' = holds_node-sized h p pool.block_size size' v.room in
    let ne = sized-ne-null h a pool.block_size size v.null_free in
    let ne' = sized-ne-null h p pool.block_size size' v.null_free in
    let h' : Heap = record h { next = update h.next p pool.first_available } in
    let first = v.chain.0 in
    let before : MemoryPool = record pool { first_available = h'.next pool.first_available } in
    let after : MemoryPool = record pool { first_available = h'.next p } in
    let last : MemoryPool = record pool { first_available = h'.next (h'.next p) } in
    (
      h',
      before,
      after,
      last,
      rw fits' refl,
      rw fits' refl,
      rw (first, ne→==_false a null ne, fits) refl,
      rw (ne→==_false p null ne', fits') refl,
      rw (update_self h.next p pool.first_available, first, ne→==_false a null ne, fits) refl,
    )
