-- ===== src/CProject/Memory/Balance.antt =====
-- What the counters say about leaks.
use footprints_ev.Base.{
  ◌+◌, ◌%◌, ◌^◌, ◌<◌, ◌≡◌, ◌≢◌, ◌↔◌, refl, sym, ◌∙◌, ap, Bool, true, false, none, some, List, [],
  ◌∷◌, ◌++◌, arith, length, length-append, update, update_self, update-ne, ne→==_false,
}
use footprints_ev.Base.Distinct.{NotIn, Distinct, All, All-remove, Distinct-remove}
use footprints_ev.Pool.{Ptr, null}
use footprints_ev.CProject.Memory.{
  Memory, add_uint, my_malloc, my_free, free_pointer, secure_free, print_memory_management_inf,
}

-- `xs` are the blocks that the user holds, and the counters differ by their number.
pub record IsBalanced (m : Memory) (xs : List Ptr) : Type 0 where
  pub distinct : Distinct xs
  pub there : All (λ p. (m.live p ≡ true) × (p ≢ null)) xs
  pub counted : (m.free_count + length xs) % 2 ^ 32 ≡ m.allocate_count
  pub small : m.free_count < 2 ^ 32

-- a change of `live` at a block that is not held
others :
    (live : Ptr → Bool) (a : Ptr) (b : Bool) (xs : List Ptr)
    → NotIn a xs
    → All (λ p. (live p ≡ true) × (p ≢ null)) xs
    → All (λ p. (update live a b p ≡ true) × (p ≢ null)) xs
others live a b [] o h = tt
others live a b (x ∷ xs) o h =
    ((update-ne live a b x (λ e. o.0 (sym e)) ∙ h.0.0, h.0.1), others live a b xs o.1 h.1)

-- `my_malloc` of memory that is in no use gives a block more to the user, and the counters stay balanced.
pub my_malloc-IsBalanced :
    (m : Memory) (a : Ptr) (xs : List Ptr)
    → IsBalanced m xs
    → a ≢ null
    → NotIn a xs
    → (m' : Memory) × (my_malloc (some a) m ≡ (a, m')) × IsBalanced m' (a ∷ xs)
unfolding my_malloc
my_malloc-IsBalanced m a xs v ne out = (
  _,
  refl,
  record {
    distinct = (out, v.distinct);
    there = ((update_self m.live a true, ne), others m.live a true xs out v.there);
    counted = let h = v.counted in omega arith;
    small = v.small;
  },
)

-- `my_free` of a block that the user holds takes it from him, and the counters stay balanced.
pub my_free-IsBalanced :
    (m : Memory) (p : Ptr) (us vs : List Ptr)
    → IsBalanced m (us ++ (p ∷ vs))
    → (m' : Memory) × (my_free p m ≡ some m') × IsBalanced m' (us ++ vs)
unfolding my_free
my_free-IsBalanced m p us vs v =
    let (out, distinct) = Distinct-remove p us vs v.distinct in
    let Held : Ptr → Type 0 = λ x. (m.live x ≡ true) × (x ≢ null) in
    let ((live, ne), rest) = All-remove Held p us vs v.there in
    (
      record m { free_count = add_uint m.free_count 1; live = update m.live p false },
      rw (ne→==_false p null ne, live) refl,
      record {
        distinct = distinct;
        there = others m.live p false (us ++ vs) out rest;
        counted =
            let h = v.counted in
            let k = v.small in omega (arith, length-append us (p ∷ vs), length-append us vs);
        small = omega arith;
      },
    )

-- `SECURE_FREE` of a held block frees it and sets the pointer to NULL, so that a second `SECURE_FREE`
-- does and counts nothing: the block is not freed twice.
pub secure_free-again :
    (m : Memory) (p : Ptr) (us vs : List Ptr)
    → IsBalanced m (us ++ (p ∷ vs))
    → (m' : Memory) × (secure_free p m ≡ some (null, m'))
      × (secure_free null m' ≡ some (null, m'))
      × IsBalanced m' (us ++ vs)
unfolding secure_free free_pointer
secure_free-again m p us vs v =
    let (m', freed, v') = my_free-IsBalanced m p us vs v in
    let Held : Ptr → Type 0 = λ x. (m.live x ≡ true) × (x ≢ null) in
    let ((_, ne), _) = All-remove Held p us vs v.there in
    (m', rw (ne→==_false p null ne, freed) refl, refl, v')

nil-length : (xs : List Ptr) → length xs ≡ 0 → xs ≡ []
nil-length [] e = refl
nil-length (x ∷ xs) e = absurd (omega arith)

-- While the user holds fewer than 2 ^ 32 blocks and no allocation has failed, the two numbers that
-- `PrintMemoryManagementInf` prints are equal exactly where he holds none, however often the counters wrapped around.
pub print_memory_management_inf-leaks :
    (m : Memory) (xs : List Ptr)
    → IsBalanced m xs
    → length xs < 2 ^ 32
    → ((print_memory_management_inf m).0.0 ≡ (print_memory_management_inf m).0.1) ↔ (xs ≡ [])
unfolding print_memory_management_inf
print_memory_management_inf-leaks m xs v few =
    let h = v.counted in
    let k = v.small in
    ((λ e. nil-length xs (omega arith)), (λ e. let n = ap length e in omega arith))

-- An allocation that fails is counted too: then the numbers differ although the user holds nothing.
pub my_malloc-failed :
    (m : Memory)
    → IsBalanced m []
    → (print_memory_management_inf (my_malloc none m).1).0.0
      ≢ (print_memory_management_inf (my_malloc none m).1).0.1
unfolding my_malloc print_memory_management_inf
my_malloc-failed m v e = let h = v.counted in let k = v.small in absurd (omega arith)
