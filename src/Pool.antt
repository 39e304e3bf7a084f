-- ===== src/Pool.antt =====
-- The memory pool of FULMemoryPool: a free list of blocks that the user gave back.
-- The heap maps a block to its size, if it is allocated, and to the `pNext` in its first bytes. The
-- system's `malloc` is a parameter of each call: the block that it returns, or none.
pub mod IsPool
pub mod Blocks
pub mod Client
pub mod Destroy
pub mod Race
mod Tests
use footprints_ev.Base.{
  ℕ, zero, suc, Bool, true, false, ◌&&◌, Option, none, some, ltb, leb, ◌==◌, if◌then◌else◌, update,
}

abbrev pub Ptr : Type 0
Ptr = ℕ

abbrev pub null : Ptr
null = 0

pub record Heap : Type 0 where
  pub size : Ptr → Option ℕ
  pub next : Ptr → Ptr

-- `Head_t`, and its address
pub record MemoryPool : Type 0 where
  pub head : Ptr
  pub block_size : ℕ
  pub first_available : Ptr

-- The result, or an access outside an allocated block, or a loop that ran out of its fuel.
pub data Run {ℓ} (A : Type ℓ) : Type ℓ where
  ok : A → Run A
  fault : Run A
  out_of_fuel : Run A

-- `sizeof(Node_t)`
abbrev pub node_size : ℕ
node_size = 8

-- Does a block hold a `Node_t`?
abbrev pub holds_node : Option ℕ → Bool
holds_node none = false
holds_node (some n) = leb node_size n

-- what the system's `malloc` of `n` bytes does, given the block that it finds
abbrev pub allocate : Heap → Ptr → ℕ → Heap
allocate h a n = record h { size = update h.size a (some n) }

abbrev pub release : Heap → Ptr → Heap
release h a = record h { size = update h.size a none }

-- the system's `free`: nothing for NULL, a fault for what is not allocated
unfoldable pub system_free : Heap → Ptr → Run Heap
system_free h p =
    if p == null then ok h else elim (h.size p) [ none ↦ fault | some n ↦ ok (release h p) ]

-- `sizeof(Head_t)`
abbrev pub head_size : ℕ
head_size = 16

-- `CreateMemoryPool`, which writes through `malloc`'s result without a test.
unfoldable pub create : Heap → Option Ptr → ℕ → Run (Heap × MemoryPool)
create h none block_size = fault
create h (some head) block_size = ok (
  allocate h head head_size,
  record {
    head = head;
    block_size = if ltb node_size block_size then block_size else node_size;
    first_available = null;
  },
)

abbrev pub malloc_new : Heap → MemoryPool → Option Ptr → Run (Ptr × Heap × MemoryPool)
malloc_new h pool none = ok (null, h, pool)
malloc_new h pool (some a) = ok (a, allocate h a pool.block_size, pool)

-- `Malloc`. A pool is never NULL here: its `assert` is a precondition.
unfoldable pub malloc : Option Ptr → Heap → MemoryPool → Run (Ptr × Heap × MemoryPool)
malloc fresh h pool =
    if pool.first_available == null
    then malloc_new h pool fresh
    else if holds_node (h.size pool.first_available)
    then ok (pool.first_available, h, record pool { first_available = h.next pool.first_available })
    else fault

-- `Free` with a pool that is not NULL
unfoldable pub free : Heap → MemoryPool → Ptr → Run (Heap × MemoryPool)
free h pool p =
    if holds_node (h.size p)
    then ok (
      record h { next = update h.next p pool.first_available },
      record pool { first_available = p },
    )
    else fault

-- `Free` where the pool may be NULL: then the block goes back to the system.
unfoldable pub free_to : Heap → Option MemoryPool → Ptr → Run (Heap × Option MemoryPool)
unfolding free system_free
free_to h none p = elim (system_free h p) [
  | ok h' ↦ ok (h', none)
  | fault ↦ fault
  | out_of_fuel ↦ out_of_fuel
]
free_to h (some pool) p = elim (free h pool p) [
  | ok (h', pool') ↦ ok (h', some pool')
  | fault ↦ fault
  | out_of_fuel ↦ out_of_fuel
]

-- The loop of `DestroyMemoryPool`.
unfoldable pub destroy_loop : ℕ → Heap → Ptr → Run Heap
destroy_loop zero h node = out_of_fuel
destroy_loop (suc fuel) h node = elim (node == null) [
  | true ↦ ok h
  | false ↦ elim (holds_node (h.size node)) [
    | false ↦ fault
    | true ↦ destroy_loop fuel (release h node) (h.next node)
  ]
]

abbrev pub free_head : Run Heap → Run (Heap × Option MemoryPool)
free_head (ok h) = ok (h, none)
free_head fault = fault
free_head out_of_fuel = out_of_fuel

-- `DestroyMemoryPool`: `*pPool` is NULL afterwards.
unfoldable pub destroy : ℕ → Heap → MemoryPool → Run (Heap × Option MemoryPool)
destroy fuel h pool = elim (destroy_loop fuel h pool.first_available) [
  | ok h' ↦ free_head (system_free h' pool.head)
  | fault ↦ fault
  | out_of_fuel ↦ out_of_fuel
]
