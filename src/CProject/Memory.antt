-- ===== src/CProject/Memory.antt =====
-- CProjectDfn.c: `malloc` and `free` counted in debug mode.
pub mod Balance
use footprints_ev.Base.{
  ℕ, ◌+◌, ◌*◌, ◌%◌, ◌^◌, Bool, true, false, Option, none, some, List, [], ◌∷◌, ◌==◌, if◌then◌else◌,
  update, ◌>>=◌,
}
use footprints_ev.Pool.{Ptr, null}

-- `allocateCount` and `freeCount`, and which blocks the system has handed out
pub record Memory : Type 0 where
  pub allocate_count : ℕ
  pub free_count : ℕ
  pub live : Ptr → Bool

-- `++` on a `uint`
abbrev pub add_uint : ℕ → ℕ → ℕ
add_uint n k = (n + k) % 2 ^ 32

-- the size that `MALLOC(type, n)` asks for: a `size_t` that becomes an `unsigned int`
abbrev pub malloc_size : ℕ → ℕ → ℕ
malloc_size n size = n * size % 2 ^ 64 % 2 ^ 32

abbrev pub handed_out : Option Ptr → Memory → Ptr × Memory
handed_out none m = (null, m)
handed_out (some a) m = (a, record m { live = update m.live a true })

-- `my_malloc`, given what the system finds
unfoldable pub my_malloc : Option Ptr → Memory → Ptr × Memory
my_malloc fresh m = handed_out fresh (record m { allocate_count = add_uint m.allocate_count 1 })

-- the system's `free`: `none` for a block that it has not handed out
abbrev pub system_free : Ptr → Memory → Option Memory
system_free p m =
    if p == null
    then some m
    else if m.live p
    then some (record m { live = update m.live p false })
    else none

-- `my_free`
unfoldable pub my_free : Ptr → Memory → Option Memory
my_free p m = system_free p (record m { free_count = add_uint m.free_count 1 })

-- `FREE`: the pointer is NULL afterwards.
unfoldable pub free_pointer : Ptr → Memory → Option (Ptr × Memory)
free_pointer p m = do m ← my_free p m; some (null, m)

-- `SECURE_FREE`
unfoldable pub secure_free : Ptr → Memory → Option (Ptr × Memory)
secure_free p m = if p == null then some (p, m) else free_pointer p m

-- `ResetMemoryCounter`
unfoldable pub reset_memory_counter : Memory → Memory
reset_memory_counter m = record m { allocate_count = 0; free_count = 0 }

-- `PrintMemoryManagementInf`: the two numbers that it prints
unfoldable pub print_memory_management_inf : Memory → (ℕ × ℕ) × Memory
unfolding reset_memory_counter
print_memory_management_inf m = ((m.allocate_count, m.free_count), reset_memory_counter m)
