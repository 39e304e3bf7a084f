-- ===== src/Server/Watchers.antt =====
-- The watchers of the open connections, and the pool that they live in.
pub mod Accept
pub mod Close
use footprints_ev.Base.{
  ℕ, ◌<◌, ◌≡◌, ◌≢◌, refl, sym, ap, subst, Option, some, none, List, [], ◌∷◌, ◌++◌, arith, update,
  update-ne, true, false, ◌⊎◌, inl, inr, ◌==◌, Bool-cases, ==_iff,
}
use footprints_ev.Base.Distinct.{NotIn, Distinct, All, All-remove, Distinct-remove}
use footprints_ev.Pool.{Ptr, null, Heap}
use footprints_ev.Pool.IsPool.{IsPool, sized-ne-null}
use footprints_ev.Pool.Blocks.{malloc-pop, malloc-fresh, free-push}
use footprints_ev.Server.Frame.{OnlyMessages}
use footprints_ev.Server.{Server, Blocks, ok, malloc_ev, free_ev, with_ev, max_client}

-- the watchers of some descriptors
abbrev pub watchers : (ℕ → Ptr) → List ℕ → List Ptr
watchers list [] = []
watchers list (fd ∷ fds) = list fd ∷ watchers list fds

-- `fds` are the open connections: exactly their watchers are in use, each other watcher that was allocated is among the
-- spare `bs`, and every other slot is NULL.
pub record IsWatching (s : Server) (fds bs : List ℕ) : Type 0 where
  pub pool : IsPool s.ev_pool.heap s.ev_pool.pool bs (watchers s.libev_list fds)
  pub distinct : Distinct fds
  pub inside : All (λ fd. fd < max_client) fds
  pub empty : (fd : ℕ) → NotIn fd fds → s.libev_list fd ≡ null

-- a call that leaves the watchers alone keeps it
pub IsWatching-kept :
    {s t : Server} {fds bs : List ℕ} → OnlyMessages s t → IsWatching s fds bs → IsWatching t fds bs
IsWatching-kept same v = record {
  pool = rw (same.same_ev, same.same_list) v.pool;
  distinct = v.distinct;
  inside = v.inside;
  empty = rw same.same_list v.empty;
}

pub watchers-append :
    (list : ℕ → Ptr) (us : List ℕ) (fd : ℕ) (vs : List ℕ)
    → watchers list (us ++ (fd ∷ vs)) ≡ watchers list us ++ (list fd ∷ watchers list vs)
watchers-append list [] fd vs = refl
watchers-append list (u ∷ us) fd vs = ap (λ r. list u ∷ r) (watchers-append list us fd vs)

pub watchers-join :
    (list : ℕ → Ptr) (us vs : List ℕ)
    → watchers list (us ++ vs) ≡ watchers list us ++ watchers list vs
watchers-join list [] vs = refl
watchers-join list (u ∷ us) vs = ap (λ r. list u ∷ r) (watchers-join list us vs)

pub watchers-update :
    (list : ℕ → Ptr) (fd : ℕ) (w : Ptr) (fds : List ℕ)
    → NotIn fd fds
    → watchers (update list fd w) fds ≡ watchers list fds
watchers-update list fd w [] o = refl
watchers-update list fd w (x ∷ fds) o =
    rw (update-ne list fd w x (λ e. o.0 (sym e)), watchers-update list fd w fds o.1)

-- a number stands in a list, or does not
pub find :
    (x : ℕ) (xs : List ℕ) → ((us : List ℕ) × (vs : List ℕ) × (xs ≡ us ++ (x ∷ vs))) ⊎ NotIn x xs
find x [] = inr tt
find x (y ∷ xs) = elim (Bool-cases (x == y)) [
  | inl same ↦ inl ([], xs, rw ((==_iff x y).0 same))
  | inr other ↦ elim (find x xs) [
    | inl (us, vs, e) ↦ inl (y ∷ us, vs, rw e)
    | inr o ↦ inr ((λ e. absurd (ground arith)), o)
  ]
]

All-right : (P : ℕ → Type 0) (xs ys : List ℕ) → All P (xs ++ ys) → All P ys
All-right P [] ys a = a
All-right P (x ∷ xs) ys a = All-right P xs ys a.1

-- an open connection has a watcher
pub open-ne-null :
    (s : Server) (us : List ℕ) (fd : ℕ) (vs bs : List ℕ)
    → IsWatching s (us ++ (fd ∷ vs)) bs
    → s.libev_list fd ≢ null
open-ne-null s us fd vs bs v =
    let Sized : Ptr → Type 0 = λ b. s.ev_pool.heap.size b ≡ some s.ev_pool.pool.block_size in
    let used = All-right Sized bs (watchers s.libev_list (us ++ (fd ∷ vs))) v.pool.sized in
    let (size, _) =
      All-remove Sized (s.libev_list fd) (watchers s.libev_list us) (watchers s.libev_list vs)
        (rw watchers-append at used) in
    sized-ne-null s.ev_pool.heap (s.libev_list fd) s.ev_pool.pool.block_size size v.pool.null_free

-- so an empty slot is that of no open connection
pub empty-NotIn :
    (s : Server) (fd : ℕ) (fds bs : List ℕ)
    → IsWatching s fds bs
    → s.libev_list fd ≡ null
    → NotIn fd fds
empty-NotIn s fd fds bs v z = elim (find fd fds) [
  | inl (us, vs, e) ↦ absurd (open-ne-null s us fd vs bs (subst (λ l. IsWatching s l bs) e v) z)
  | inr o ↦ o
]
