-- ===== src/Server/Memory.antt =====
-- `Malloc` and `Free` on the pools of the server.
use footprints_ev.Base.{◌≡◌, ◌≢◌, ◌⊎◌, inl, inr, refl, some, none, List, [], ◌∷◌, ◌++◌}
use footprints_ev.Pool
use footprints_ev.Pool.{Ptr, null}
use footprints_ev.Pool.IsPool.{IsPool, sized-ne-null}
use footprints_ev.Pool.Blocks.{malloc-pop, malloc-fresh, free-push}
use footprints_ev.Server.{
  Server, Blocks, ok, malloc_ev, free_ev, with_ev, malloc_obd, free_obd, with_obd,
}

-- the block that `Malloc` hands out, where the system has memory
pub record Grant (a : Ptr) (b : Blocks) (bs used : List Ptr) : Type 0 where
  pub block : Ptr
  pub after : Blocks
  pub left : List Ptr
  pub run : Pool.malloc (some a) b.heap b.pool ≡ Pool.ok (block, after.heap, after.pool)
  pub sound : IsPool after.heap after.pool left (block ∷ used)
  pub apart : block ≢ null
  pub among : (block ∷ left ≡ bs) ⊎ ((block ≡ a) × (left ≡ bs))

pub malloc-Grant :
    (a : Ptr) (b : Blocks) (bs used : List Ptr)
    → IsPool b.heap b.pool bs used
    → a ≢ null
    → b.heap.size a ≡ none
    → Grant a b bs used
malloc-Grant a b [] used v ne fresh =
    let (run, v') = malloc-fresh a b.heap b.pool used v ne fresh in
    record {
      block = a;
      after = _;
      left = [];
      run = run;
      sound = v';
      apart = ne;
      among = inr (refl, refl);
    }
malloc-Grant a b (c ∷ bs) used v ne fresh =
    let (pool', run, v', _) = malloc-pop (some a) b.heap b.pool c bs used v in
    record {
      block = c;
      after = record { heap = b.heap; pool = pool' };
      left = bs;
      run = run;
      sound = v';
      apart = sized-ne-null b.heap c b.pool.block_size v.sized.0 v.null_free;
      among = inl refl;
    }

pub malloc_ev-some :
    (a : Ptr) (s : Server) (bs used : List Ptr)
    → IsPool s.ev_pool.heap s.ev_pool.pool bs used
    → a ≢ null
    → s.ev_pool.heap.size a ≡ none
    → (g : Grant a s.ev_pool bs used) × (malloc_ev (some a) s ≡ ok g.block (with_ev s g.after))
unfolding malloc_ev
malloc_ev-some a s bs used v ne fresh =
    let g = malloc-Grant a s.ev_pool bs used v ne fresh in (g, rw g.run refl)

pub malloc_obd-some :
    (a : Ptr) (s : Server) (bs used : List Ptr)
    → IsPool s.obd_pool.heap s.obd_pool.pool bs used
    → a ≢ null
    → s.obd_pool.heap.size a ≡ none
    → (g : Grant a s.obd_pool bs used) × (malloc_obd (some a) s ≡ ok g.block (with_obd s g.after))
unfolding malloc_obd
malloc_obd-some a s bs used v ne fresh =
    let g = malloc-Grant a s.obd_pool bs used v ne fresh in (g, rw g.run refl)

pub free_ev-used :
    (w : Ptr) (s : Server) (bs us vs : List Ptr)
    → IsPool s.ev_pool.heap s.ev_pool.pool bs (us ++ (w ∷ vs))
    → (b : Blocks) × (free_ev w s ≡ ok tt (with_ev s b)) × IsPool b.heap b.pool (w ∷ bs) (us ++ vs)
unfolding free_ev
free_ev-used w s bs us vs v =
    let (h, p, run, v', _) = free-push s.ev_pool.heap s.ev_pool.pool w bs us vs v in
    (record { heap = h; pool = p }, rw run refl, v')

pub free_obd-used :
    (w : Ptr) (s : Server) (bs us vs : List Ptr)
    → IsPool s.obd_pool.heap s.obd_pool.pool bs (us ++ (w ∷ vs))
    → (b : Blocks) × (free_obd w s ≡ ok tt (with_obd s b))
      × IsPool b.heap b.pool (w ∷ bs) (us ++ vs)
unfolding free_obd
free_obd-used w s bs us vs v =
    let (h, p, run, v', _) = free-push s.obd_pool.heap s.obd_pool.pool w bs us vs v in
    (record { heap = h; pool = p }, rw run refl, v')
