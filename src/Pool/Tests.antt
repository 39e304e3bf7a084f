-- ===== src/Pool/Tests.antt =====
-- A small history of a pool, and the theorems at it.
use footprints_ev.Base.{◌≡◌, ◌≢◌, refl, none, some, [], ◌∷◌, arith, update}
use footprints_ev.Base.Distinct.{Distinct, All}
use footprints_ev.Pool.Race.{free_link, free_push, malloc-twice}
use footprints_ev.Pool.{Heap, MemoryPool, ok, fault, allocate, malloc, free, destroy}
use footprints_ev.Pool.Destroy.{destroy-frees}
use footprints_ev.Pool.IsPool.{IsPool}
use footprints_ev.Pool.Client.{World, take, give, Reach, here, next, IsSound, Reach-Distinct}

abbrev bare : Heap
bare = record { size = λ p. none; next = λ p. 0 }

abbrev start : World
start = record {
  heap = allocate bare 100 16;
  pool = record { head = 100; block_size = 64; first_available = 0 };
  used = [];
}

-- 5 and 6 were taken, and 5 was given back
abbrev later : World
later = record {
  heap = record {
    size = update (update start.heap.size 5 (some 64)) 6 (some 64);
    next = update start.heap.next 5 0;
  };
  pool = record { head = 100; block_size = 64; first_available = 5 };
  used = 6 ∷ [];
}

start-IsSound : IsSound start
start-IsSound = (
  [],
  record {
    chain = refl;
    distinct = tt;
    sized = tt;
    room = omega arith;
    null_free = refl;
    head_live = refl;
    head_out = tt;
    owned = λ p out apart. ground arith;
  },
)

history : Reach start later
unfolding malloc free
history =
    next
      (next (next here (take (some 5) 5 _ _ (omega arith, refl) refl refl))
        (take (some 6) 6 _ _ (omega arith, refl) refl refl))
      (give (6 ∷ []) 5 [] _ _ refl refl refl)

Reach-Distinct_example :
    Distinct (6 ∷ [])
    × All (λ b. later.heap.size b ≡ some 64) (6 ∷ [])
    × (malloc (some 7) later.heap later.pool ≢ fault)
Reach-Distinct_example = Reach-Distinct (some 7) history start-IsSound (omega arith, refl)

-- the block 5 waits, 6 is in use
later-IsPool : IsPool later.heap later.pool (5 ∷ []) (6 ∷ [])
later-IsPool = record {
  chain = (refl, refl);
  distinct = omega arith;
  sized = (refl, (refl, tt));
  room = omega arith;
  null_free = refl;
  head_live = refl;
  head_out = omega arith;
  owned = λ p out apart. ground arith;
}

malloc-twice_example :
    (h' : Heap) × (before after last : MemoryPool) × (free_link later.heap later.pool 6 ≡ ok h')
    × (free later.heap later.pool 6 ≡ ok (h', free_push later.pool 6))
    × (malloc none h' later.pool ≡ ok (5, h', before))
    × (malloc none h' (free_push before 6) ≡ ok (6, h', after))
    × (malloc none h' after ≡ ok (5, h', last))
malloc-twice_example = malloc-twice later.heap later.pool 5 6 [] [] [] none none none later-IsPool

destroy-frees_example :
    (h' : Heap) × (destroy 2 later.heap later.pool ≡ ok (h', none))
    × All (λ b. h'.size b ≡ none) (5 ∷ [])
    × (h'.size 100 ≡ none)
    × All (λ b. h'.size b ≡ some 64) (6 ∷ [])
destroy-frees_example =
    destroy-frees 2 later.heap later.pool (5 ∷ []) (6 ∷ []) later-IsPool (omega arith)
