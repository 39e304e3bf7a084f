-- ===== src/Server/Watchers/Accept.antt =====
-- `accept_func_cb`: one more connection is open, or everything is given back.
use footprints_ev.Base.{
  ℕ, ◌<◌, ◌≡◌, ◌≢◌, refl, ap, ◌∙◌, Bool, true, false, Option, some, none, List, [], ◌∷◌, ◌++◌,
  arith, update, update-ne, update_self, ltb, ◌==◌, if◌then◌else◌, ==_iff, ne→==_false, eq→==,
  lt→ltb,
}
use footprints_ev.Pool.{Ptr, null}
use footprints_ev.Pool.IsPool.{IsPool}
use footprints_ev.Pool.Blocks.{malloc-null, free-fault}
use footprints_ev.Server.{
  Server, Blocks, start, close, emit, ◌>>◌, Run, ok, fault, malloc_ev, free_ev, with_ev, max_client,
}
use footprints_ev.Server.Connections.{accept_func_cb, accepted, install, get_slot, set_slot}
use footprints_ev.Server.Watchers.{watchers, IsWatching, watchers-update, empty-NotIn}
use footprints_ev.Server.Frame.{OnlyConnections, then_connections}
use footprints_ev.Server.Memory.{malloc_ev-some, free_ev-used}

-- The open connections after `accept_func_cb`: a new one, where `accept` returns a descriptor in range
-- whose slot is empty.
abbrev pub opened : (ℕ → Ptr) → Bool → Option ℕ → List ℕ → List ℕ
opened list true client fds = fds
opened list false none fds = fds
opened list false (some fd) fds =
    if ltb max_client fd then fds else if list fd == null then fd ∷ fds else fds

-- the call returned, with the connections `fds` open
abbrev pub Opens : Server → List ℕ → Run (Unit {0}) → Type 0
Opens s fds r =
    (t : Server) × (bs : List ℕ) × (r ≡ ok tt t) × IsWatching t fds bs × OnlyConnections s t

-- a watcher that was just taken is given back
give_back :
    (s : Server) (b : Blocks) (w : Ptr) (fds bs bs' : List ℕ)
    → IsWatching s fds bs
    → IsPool b.heap b.pool bs' (w ∷ watchers s.libev_list fds)
    → Opens s fds (free_ev w (with_ev s b))
give_back s b w fds bs bs' v p =
    let (b', run, p') = free_ev-used w (with_ev s b) bs' [] (watchers s.libev_list fds) p in
    (
      with_ev s b',
      w ∷ bs',
      run,
      record { pool = p'; distinct = v.distinct; inside = v.inside; empty = v.empty },
      record {
        same_obd = refl;
        same_obds = refl;
        same_mq = refl;
        same_pool = refl;
        same_flag = refl;
      },
    )

install-empty :
    (w fd : ℕ) (t : Server)
    → fd < max_client
    → t.libev_list fd ≡ null
    → install w fd t
      ≡ ok tt (record t { libev_list = update t.libev_list fd w; log = t.log ++ (start w fd ∷ []) })
unfolding get_slot set_slot
install-empty w fd t inside z =
    rw (lt→ltb fd max_client inside, eq→== (t.libev_list fd) null z)
      (rw (lt→ltb fd max_client inside) refl)

install-taken :
    (w fd : ℕ) (t : Server)
    → fd < max_client
    → (t.libev_list fd == null) ≡ false
    → install w fd t ≡ free_ev w t
unfolding get_slot
install-taken w fd t inside z = rw (lt→ltb fd max_client inside) (rw z refl)

-- a watcher in an empty slot
installed :
    (s : Server) (b : Blocks) (w fd : ℕ) (fds bs bs' : List ℕ)
    → IsWatching s fds bs
    → IsPool b.heap b.pool bs' (w ∷ watchers s.libev_list fds)
    → fd < max_client
    → s.libev_list fd ≡ null
    → Opens s (fd ∷ fds) (install w fd (with_ev s b))
installed s b w fd fds bs bs' v p inside z =
    let out = empty-NotIn s fd fds bs v z in
    let list : ℕ → Ptr = update s.libev_list fd w in
    let users = watchers-update s.libev_list fd w fds out in
    (
      record s { ev_pool = b; libev_list = list; log = s.log ++ (start w fd ∷ []) },
      bs',
      install-empty w fd (with_ev s b) inside z,
      record {
        pool = rw (update_self s.libev_list fd w, users) p;
        distinct = (out, v.distinct);
        inside = (inside, v.inside);
        empty = λ x o. update-ne s.libev_list fd w x o.0 ∙ v.empty x o.1;
      },
      record {
        same_obd = refl;
        same_obds = refl;
        same_mq = refl;
        same_pool = refl;
        same_flag = refl;
      },
    )

in_range :
    (s : Server) (b : Blocks) (w fd : ℕ) (fds bs bs' : List ℕ) (free : Bool)
    → IsWatching s fds bs
    → IsPool b.heap b.pool bs' (w ∷ watchers s.libev_list fds)
    → fd < max_client
    → (s.libev_list fd == null) ≡ free
    → Opens s (if free then fd ∷ fds else fds) (install w fd (with_ev s b))
in_range s b w fd fds bs bs' true v p inside z =
    installed s b w fd fds bs bs' v p inside ((==_iff (s.libev_list fd) null).0 z)
in_range s b w fd fds bs bs' false v p inside z =
    rw (install-taken w fd (with_ev s b) inside z) (give_back s b w fds bs bs' v p)

-- a descriptor that is refused is closed
refused :
    (s : Server) (b : Blocks) (w fd : ℕ) (fds bs bs' : List ℕ)
    → IsWatching s fds bs
    → IsPool b.heap b.pool bs' (w ∷ watchers s.libev_list fds)
    → Opens s fds ((free_ev w >> emit (close fd)) (with_ev s b))
refused s b w fd fds bs bs' v p =
    let (t, bs'', run, v', only) = give_back s b w fds bs bs' v p in
    (
      record t { log = t.log ++ (close fd ∷ []) },
      bs'',
      rw run refl,
      record { pool = v'.pool; distinct = v'.distinct; inside = v'.inside; empty = v'.empty },
      then_connections only (record {
        same_obd = refl;
        same_obds = refl;
        same_mq = refl;
        same_pool = refl;
        same_flag = refl;
      }),
    )

answered :
    (s : Server) (b : Blocks) (w : ℕ) (fds bs bs' : List ℕ) (fd : ℕ) (far : Bool)
    → IsWatching s fds bs
    → IsPool b.heap b.pool bs' (w ∷ watchers s.libev_list fds)
    → fd ≢ max_client
    → ltb max_client fd ≡ far
    → Opens s
        (if far then fds else if s.libev_list fd == null then fd ∷ fds else fds)
        ((if far then (free_ev w >> emit (close fd)) else install w fd) (with_ev s b))
answered s b w fds bs bs' fd true v p ne h = refused s b w fd fds bs bs' v p
answered s b w fds bs bs' fd false v p ne h =
    in_range s b w fd fds bs bs' (s.libev_list fd == null) v p (ground arith) refl

branches :
    (s : Server) (b : Blocks) (w : ℕ) (fds bs bs' : List ℕ) (error : Bool) (client : Option ℕ)
    → IsWatching s fds bs
    → IsPool b.heap b.pool bs' (w ∷ watchers s.libev_list fds)
    → client ≢ some max_client
    → Opens s
        (opened s.libev_list error client fds)
        ((if error then free_ev w else accepted w client) (with_ev s b))
branches s b w fds bs bs' true client v p ne = give_back s b w fds bs bs' v p
branches s b w fds bs bs' false none v p ne = give_back s b w fds bs bs' v p
branches s b w fds bs bs' false (some fd) v p ne =
    answered s b w fds bs bs' fd (ltb max_client fd) v p (λ e. ne (ap some e)) refl

-- Where the system has memory and the descriptor is not 20480, `accept_func_cb` returns on every
-- branch, and afterwards exactly the watchers of the open connections are in use and every other one that was allocated
-- is spare: no watcher is lost on an error path, and none is shared by two connections.
pub accept_func_cb-IsWatching :
    (a : Ptr) (error : Bool) (client : Option ℕ) (s : Server) (fds bs : List ℕ)
    → IsWatching s fds bs
    → a ≢ null
    → s.ev_pool.heap.size a ≡ none
    → client ≢ some max_client
    → Opens s (opened s.libev_list error client fds) (accept_func_cb (some a) error client s)
unfolding accept_func_cb
accept_func_cb-IsWatching a error client s fds bs v ne fresh past =
    let (g, run) = malloc_ev-some a s bs (watchers s.libev_list fds) v.pool ne fresh in
    rw (run, ne→==_false g.block null g.apart)
      (branches s g.after g.block fds bs g.left error client v g.sound past)

-- Where the system has memory, descriptor 20480 passes the test of `accept_func_cb`, and the read of
-- `libev_list` that follows is one past its end.
pub accept_func_cb-past_end :
    (a : Ptr) (s : Server) (fds bs : List ℕ)
    → IsWatching s fds bs
    → a ≢ null
    → s.ev_pool.heap.size a ≡ none
    → accept_func_cb (some a) false (some max_client) s ≡ fault
unfolding accept_func_cb get_slot
accept_func_cb-past_end a s fds bs v ne fresh =
    let (g, run) = malloc_ev-some a s bs (watchers s.libev_list fds) v.pool ne fresh in
    rw (run, ne→==_false g.block null g.apart) refl

-- With neither a free block nor memory, `accept_func_cb` gives the watcher NULL to `Free`, which writes
-- through it.
pub accept_func_cb-no_memory :
    (error : Bool) (client : Option ℕ) (s : Server) (fds : List ℕ)
    → IsWatching s fds []
    → accept_func_cb none error client s ≡ fault
unfolding accept_func_cb malloc_ev free_ev
accept_func_cb-no_memory error client s fds v =
    rw
      (
        malloc-null s.ev_pool.heap s.ev_pool.pool (watchers s.libev_list fds) v.pool,
        free-fault s.ev_pool.heap s.ev_pool.pool null v.pool.null_free,
      )
      refl
