-- ===== src/Pool/IsPool.antt =====
-- The invariant of a pool: which blocks wait in it and which its users hold.
use footprints_ev.Base.{
  ℕ, ◌≤◌, ◌≡◌, ◌≢◌, refl, sym, ◌∙◌, true, none, some, List, [], ◌∷◌, ◌++◌, arith, update, update-ne,
  update_self, ltb, if◌then◌else◌,
}
use footprints_ev.Base.Distinct.{NotIn, Distinct, All}
use footprints_ev.Pool.{
  Ptr, null, Heap, MemoryPool, ok, fault, create, allocate, head_size, node_size, holds_node,
}

-- the free list from its first block to NULL
abbrev pub FreeChain : (Ptr → Ptr) → Ptr → List Ptr → Type 0
FreeChain next first [] = first ≡ null
FreeChain next first (b ∷ bs) = (first ≡ b) × FreeChain next (next b) bs

-- `free` waits in the pool, the next to be handed out first; `used` is with the users. Every block of
-- the heap is in one of the two lists, or is the head of the pool: a block that was lost breaks this.
pub record IsPool (h : Heap) (pool : MemoryPool) (free used : List Ptr) : Type 0 where
  pub chain : FreeChain h.next pool.first_available free
  pub distinct : Distinct (free ++ used)
  pub sized : All (λ b. h.size b ≡ some pool.block_size) (free ++ used)
  pub room : node_size ≤ pool.block_size
  pub null_free : h.size null ≡ none
  pub head_live : h.size pool.head ≡ some head_size
  pub head_out : NotIn pool.head (free ++ used)
  pub owned : (p : Ptr) → NotIn p (free ++ used) → p ≢ pool.head → h.size p ≡ none

pub sized-ne-null : (h : Heap) (b n : ℕ) → h.size b ≡ some n → h.size null ≡ none → b ≢ null
sized-ne-null h b n s z e = ground arith

pub holds_node-sized :
    (h : Heap) (b n : ℕ) → h.size b ≡ some n → node_size ≤ n → holds_node (h.size b) ≡ true
holds_node-sized h b n s le = rw s (ground arith)

pub FreeChain-update :
    (next : Ptr → Ptr) (first p v : Ptr) (bs : List Ptr)
    → NotIn p bs
    → FreeChain next first bs
    → FreeChain (update next p v) first bs
FreeChain-update next first p v [] o c = c
FreeChain-update next first p v (b ∷ bs) o c = (
  c.0,
  rw (update-ne next p v b (λ e. o.0 (sym e))) (FreeChain-update next (next b) p v bs o.1 c.1),
)

-- On a heap without a block, if the system has room for the head, `CreateMemoryPool` makes an empty pool whose blocks have room
-- for the link and for what was asked; the heap differs only by the head.
pub create-IsPool :
    (h : Heap) (head : Ptr) (n : ℕ)
    → ((p : Ptr) → h.size p ≡ none)
    → head ≢ null
    → (pool : MemoryPool) × (create h (some head) n ≡ ok (allocate h head head_size, pool))
      × IsPool (allocate h head head_size) pool [] []
      × (n ≤ pool.block_size)
unfolding create
create-IsPool h head n z ne = (
  record {
    head = head;
    block_size = if ltb node_size n then n else node_size;
    first_available = null;
  },
  refl,
  record {
    chain = refl;
    distinct = tt;
    sized = tt;
    room = ground arith;
    null_free = update-ne h.size head (some head_size) null (λ e. ne (sym e)) ∙ z null;
    head_live = update_self h.size head (some head_size);
    head_out = tt;
    owned = λ p out apart. update-ne h.size head (some head_size) p apart ∙ z p;
  },
  ground arith,
)

-- `CreateMemoryPool` dereferences NULL when the system has no memory: it never returns NULL.
pub create-fault : (h : Heap) (n : ℕ) → create h none n ≡ fault
unfolding create
create-fault h n = refl
