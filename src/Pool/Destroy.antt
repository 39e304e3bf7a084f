-- ===== src/Pool/Destroy.antt =====
-- `DestroyMemoryPool` gives the free blocks and the head back to the system.
use footprints_ev.Base.{
  ℕ, zero, suc, ◌≤◌, ◌<◌, ◌≡◌, ◌≢◌, refl, sym, ◌∙◌, subst, true, false, none, some, List, [], ◌∷◌,
  ◌++◌, arith, update-ne, update_self, ◌==◌, ne→==_false, length, eq→==,
}
use footprints_ev.Base.Distinct.{
  NotIn, Distinct, All, Distinct-remove, NotIn-suffix, NotIn-left, Distinct-left, All-remove,
}
use footprints_ev.Pool.{
  Ptr, null, Heap, MemoryPool, ok, release, destroy, destroy_loop, node_size, head_size, holds_node,
  system_free,
}
use footprints_ev.Pool.IsPool.{FreeChain, IsPool, sized-ne-null, holds_node-sized}

-- the heap without the blocks of `xs`
abbrev pub release_all : Heap → List Ptr → Heap
release_all h [] = h
release_all h (x ∷ xs) = release_all (release h x) xs

-- the blocks of a free list are there, and large enough
abbrev Sized : Heap → ℕ → List Ptr → Type 0
Sized h n xs = All (λ b. h.size b ≡ some n) xs

Sized-release :
    (h : Heap) (n : ℕ) (b : Ptr) (xs : List Ptr)
    → NotIn b xs
    → Sized h n xs
    → Sized (release h b) n xs
Sized-release h n b [] o s = tt
Sized-release h n b (x ∷ xs) o s =
    (update-ne h.size b none x (λ e. o.0 (sym e)) ∙ s.0, Sized-release h n b xs o.1 s.1)

destroy_loop-round :
    (fuel : ℕ) (h : Heap) (p : Ptr)
    → p ≢ null
    → holds_node (h.size p) ≡ true
    → destroy_loop (suc fuel) h p ≡ destroy_loop fuel (release h p) (h.next p)
unfolding destroy_loop
destroy_loop-round fuel h p ne fits = rw (destroy_loop, ne→==_false p null ne, fits)

destroy_loop-frees :
    (fuel : ℕ) (h : Heap) (n first : ℕ) (xs ys : List Ptr)
    → length xs < fuel
    → FreeChain h.next first xs
    → Distinct (xs ++ ys)
    → Sized h n (xs ++ ys)
    → node_size ≤ n
    → h.size null ≡ none
    → destroy_loop fuel h first ≡ ok (release_all h xs)
unfolding destroy_loop
destroy_loop-frees zero h n first xs ys f c d s le z = absurd (omega arith)
destroy_loop-frees (suc fuel) h n first [] ys f c d s le z = rw (destroy_loop, eq→== first null c)
destroy_loop-frees (suc fuel) h n first (x ∷ xs) ys f c d s le z =
    let ne = sized-ne-null h x n s.0 z in
    let fits = holds_node-sized h x n s.0 le in
    subst (λ p. destroy_loop (suc fuel) h p ≡ ok (release_all h (x ∷ xs))) (sym c.0)
      (destroy_loop-round fuel h x ne fits
        ∙ destroy_loop-frees fuel (release h x) n (h.next x) xs ys (omega arith) c.1 d.1
            (Sized-release h n x (xs ++ ys) d.0 s.1) le
            (update-ne h.size x none null (λ e. ne (sym e)) ∙ z))

-- a block outside the list keeps its size
release_all-size :
    (h : Heap) (xs : List Ptr) (p : Ptr) → NotIn p xs → (release_all h xs).size p ≡ h.size p
release_all-size h [] p o = refl
release_all-size h (x ∷ xs) p o =
    release_all-size (release h x) xs p o.1 ∙ update-ne h.size x none p o.0

release_all-gone :
    (h : Heap) (xs : List Ptr) → Distinct xs → All (λ b. (release_all h xs).size b ≡ none) xs
release_all-gone h [] d = tt
release_all-gone h (x ∷ xs) d = (
  release_all-size (release h x) xs x d.0 ∙ update_self h.size x none,
  release_all-gone (release h x) xs d.1,
)

-- what happens to other blocks only leaves `ys` as they were
kept :
    (h g : Heap) (n head : ℕ) (xs ys : List Ptr)
    → Distinct (xs ++ ys)
    → NotIn head (xs ++ ys)
    → Sized h n (xs ++ ys)
    → ((p : Ptr) → NotIn p xs → p ≢ head → g.size p ≡ h.size p)
    → Sized g n ys
kept h g n head xs [] d o s same = tt
kept h g n head xs (y ∷ ys) d o s same =
    let (out, distinct) = Distinct-remove y xs ys d in
    let (size, sized) = All-remove (λ b. h.size b ≡ some n) y xs ys s in
    let (apart, ne, _) = NotIn-suffix head xs y ys o in
    (
      same y (NotIn-left y xs ys out) (λ e. ne (sym e)) ∙ size,
      kept h g n head xs ys distinct apart sized same,
    )

head-ne :
    (h : Heap) (p : Ptr) → h.size p ≡ some head_size → h.size null ≡ none → (p == null) ≡ false
head-ne h p s z = ne→==_false p null (sized-ne-null h p head_size s z)

system_free-lem :
    (h : Heap) (p : Ptr) (n : ℕ)
    → h.size p ≡ some n
    → (p == null) ≡ false
    → system_free h p ≡ ok (release h p)
unfolding system_free
system_free-lem h p n s ne = rw (system_free, ne, s)

release-none :
    (h : Heap) (p : Ptr) (xs : List Ptr)
    → All (λ b. h.size b ≡ none) xs
    → All (λ b. (release h p).size b ≡ none) xs
release-none h p [] a = tt
release-none h p (x ∷ xs) a = (ground (arith, a.0), release-none h p xs a.1)

-- `DestroyMemoryPool` ends after one round for each free block, returns NULL, and gives each free block
-- and the head back to the system. The blocks that users still hold stay allocated.
pub destroy-frees :
    (fuel : ℕ) (h : Heap) (pool : MemoryPool) (bs used : List Ptr)
    → IsPool h pool bs used
    → length bs < fuel
    → (h' : Heap) × (destroy fuel h pool ≡ ok (h', none))
      × All (λ b. h'.size b ≡ none) bs
      × (h'.size pool.head ≡ none)
      × All (λ b. h'.size b ≡ some pool.block_size) used
unfolding destroy
destroy-frees fuel h pool bs used v f =
    let g = release_all h bs in
    let head = pool.head in
    let run =
      destroy_loop-frees fuel h pool.block_size pool.first_available bs used f v.chain v.distinct
        v.sized v.room v.null_free in
    let spared = release_all-size h bs head (NotIn-left head bs used v.head_out) ∙ v.head_live in
    let ne = head-ne h head v.head_live v.null_free in
    (
      release g head,
      rw (destroy, run, system_free-lem g head head_size spared ne),
      release-none g head bs (release_all-gone h bs (Distinct-left bs used v.distinct)),
      update_self g.size head none,
      kept h (release g head) pool.block_size head bs used v.distinct v.head_out v.sized
          λ p out apart. update-ne g.size head none p apart ∙ release_all-size h bs p out,
    )
