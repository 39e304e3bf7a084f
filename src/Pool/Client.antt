-- ===== src/Pool/Client.antt =====
-- A user of a pool who gives back only what the pool handed out, in any order.
use footprints_ev.Base.{
  ◌≡◌, ◌≢◌, subst, Option, none, some, List, [], ◌∷◌, ◌++◌, if◌then◌else◌, ◌==◌, ne→==_false,
}
use footprints_ev.Base.Distinct.{Distinct, All}
use footprints_ev.Pool.{Ptr, null, Heap, MemoryPool, Run, ok, fault, out_of_fuel, malloc, free}
use footprints_ev.Pool.IsPool.{IsPool, sized-ne-null}
use footprints_ev.Pool.Blocks.{malloc-pop, malloc-fresh, malloc-null, free-push}

pub record World : Type 0 where
  pub heap : Heap
  pub pool : MemoryPool
  pub used : List Ptr

-- What the C library promises of `malloc`: a block that is not NULL and not allocated.
abbrev pub Fresh : Heap → Option Ptr → Type 0
Fresh h none = Unit {0}
Fresh h (some a) = (a ≢ null) × (h.size a ≡ none)

-- the blocks in use after `Malloc` returned `b`
abbrev pub grant : Ptr → List Ptr → List Ptr
grant b used = if b == null then used else b ∷ used

-- One call: a `Malloc`, or a `Free` of a block in use.
pub data Step (w u : World) : Type 0 where
  take :
      (fresh : Option Ptr) (b : Ptr) (h : Heap) (p : MemoryPool)
      → Fresh w.heap fresh
      → malloc fresh w.heap w.pool ≡ ok (b, h, p)
      → u ≡ record { heap = h; pool = p; used = grant b w.used }
      → Step w u
  give :
      (us : List Ptr) (b : Ptr) (vs : List Ptr) (h : Heap) (p : MemoryPool)
      → w.used ≡ us ++ (b ∷ vs)
      → free w.heap w.pool b ≡ ok (h, p)
      → u ≡ record { heap = h; pool = p; used = us ++ vs }
      → Step w u

pub data Reach (w : World) : World → Type 0 where
  here : Reach w w
  next : {u v : World} → Reach w u → Step u v → Reach w v

abbrev pub IsSound : World → Type 0
IsSound w = (bs : List Ptr) × IsPool w.heap w.pool bs w.used

-- the call returned, and the pool is sound with what it returned in use
abbrev Took : List Ptr → Run (Ptr × Heap × MemoryPool) → Type 0
Took used (ok (b, h, p)) = IsSound (record { heap = h; pool = p; used = grant b used })
Took used fault = ⊥
Took used out_of_fuel = ⊥

abbrev Gave : List Ptr → Run (Heap × MemoryPool) → Type 0
Gave used (ok (h, p)) = IsSound (record { heap = h; pool = p; used = used })
Gave used fault = ⊥
Gave used out_of_fuel = ⊥

malloc-Took :
    (fresh : Option Ptr) (h : Heap) (pool : MemoryPool) (bs used : List Ptr)
    → IsPool h pool bs used
    → Fresh h fresh
    → Took used (malloc fresh h pool)
malloc-Took fresh h pool (b ∷ bs) used v f =
    let (pool', run, v', same) = malloc-pop fresh h pool b bs used v in
    let ne = sized-ne-null h b pool.block_size v.sized.0 v.null_free in
    rw (run, ne→==_false b null ne) (bs, v')
malloc-Took none h pool [] used v f = rw (malloc-null h pool used v) ([], v)
malloc-Took (some a) h pool [] used v f =
    let (run, v') = malloc-fresh a h pool used v f.0 f.1 in
    rw (run, ne→==_false a null f.0) ([], v')

free-Gave :
    (h : Heap) (pool : MemoryPool) (b : Ptr) (bs us vs : List Ptr)
    → IsPool h pool bs (us ++ (b ∷ vs))
    → Gave (us ++ vs) (free h pool b)
free-Gave h pool b bs us vs v =
    let (h', pool', run, v', same) = free-push h pool b bs us vs v in rw run (b ∷ bs, v')

pub Step-IsSound : {w u : World} → Step w u → IsSound w → IsSound u
Step-IsSound {w} (take fresh b h p f e eu) (bs, v) =
    rw eu (subst (Took w.used) e (malloc-Took fresh w.heap w.pool bs w.used v f))
Step-IsSound {w} (give us b vs h p e run eu) (bs, v) = rw eu (
    subst (Gave (us ++ vs)) run
      (free-Gave w.heap w.pool b bs us vs (subst (IsPool w.heap w.pool bs) e v)))

pub Reach-IsSound : {w u : World} → Reach w u → IsSound w → IsSound u
Reach-IsSound here s = s
Reach-IsSound (next r st) s = Step-IsSound st (Reach-IsSound r s)

All-right : (P : Ptr → Type 0) (xs ys : List Ptr) → All P (xs ++ ys) → All P ys
All-right P [] ys a = a
All-right P (x ∷ xs) ys a = All-right P xs ys a.1

Distinct-right : (xs ys : List Ptr) → Distinct (xs ++ ys) → Distinct ys
Distinct-right [] ys d = d
Distinct-right (x ∷ xs) ys d = Distinct-right xs ys d.1

-- Whatever calls were made on a sound pool, no two blocks in use are the same, each is allocated
-- with the pool's block size, and the next `Malloc` does not fault.
pub Reach-Distinct :
    {w u : World} (fresh : Option Ptr)
    → Reach w u
    → IsSound w
    → Fresh u.heap fresh
    → Distinct u.used
      × All (λ b. u.heap.size b ≡ some u.pool.block_size) u.used
      × (malloc fresh u.heap u.pool ≢ fault)
Reach-Distinct {u} fresh r s f =
    let (bs, v) = Reach-IsSound r s in
    (
      Distinct-right bs u.used v.distinct,
      All-right (λ b. u.heap.size b ≡ some u.pool.block_size) bs u.used v.sized,
      λ e. subst (Took u.used) e (malloc-Took fresh u.heap u.pool bs u.used v f),
    )

-- Whatever calls were made on a sound pool, `Free` of any block in use does not fault.
pub Reach-free :
    {w u : World} (us : List Ptr) (b : Ptr) (vs : List Ptr)
    → Reach w u
    → IsSound w
    → u.used ≡ us ++ (b ∷ vs)
    → free u.heap u.pool b ≢ fault
Reach-free {u} us b vs r s e bad =
    let (bs, v) = Reach-IsSound r s in
    subst (Gave (us ++ vs)) bad
      (free-Gave u.heap u.pool b bs us vs (subst (IsPool u.heap u.pool bs) e v))
