-- ===== src/Server/Watchers/Close.antt =====
-- `free_libev`: a connection is closed once.
use footprints_ev.Base.{
  ℕ, ◌<◌, ◌≡◌, ◌≢◌, refl, subst, List, [], ◌∷◌, ◌++◌, append_assoc, arith, update, inl, inr, ltb,
  ◌==◌, Bool-cases, ne→==_false, eq→==, le→ltb_false, lt→ltb,
}
use footprints_ev.Base.Distinct.{NotIn, NotIn-insert, Distinct-remove, All-remove}
use footprints_ev.Pool.{Ptr, null}
use footprints_ev.Pool.IsPool.{IsPool}
use footprints_ev.Server.{Server, Blocks, close, stop, ok, free_ev, max_client}
use footprints_ev.Server.Connections.{free_libev, get_slot, set_slot}
use footprints_ev.Server.Watchers.{
  watchers, watchers-append, watchers-join, IsWatching, watchers-update, open-ne-null,
}
use footprints_ev.Server.Frame.{OnlyConnections}
use footprints_ev.Server.Memory.{free_ev-used}

free_libev-run :
    (fd : ℕ) (s : Server) (b : Blocks)
    → fd < max_client
    → s.libev_list fd ≢ null
    → free_ev
        (s.libev_list fd)
        (record s { log = (s.log ++ (close fd ∷ [])) ++ (stop (s.libev_list fd) ∷ []) })
      ≡ ok tt (record s {
        log = (s.log ++ (close fd ∷ [])) ++ (stop (s.libev_list fd) ∷ []);
        ev_pool = b;
      })
    → free_libev fd s
      ≡ ok tt (record s {
        log = s.log ++ (close fd ∷ stop (s.libev_list fd) ∷ []);
        ev_pool = b;
        libev_list = update s.libev_list fd null;
      })
unfolding free_libev get_slot set_slot
free_libev-run fd s b inside ne run =
    rw (le→ltb_false max_client fd (ground arith), lt→ltb fd max_client inside)
      (rw (ne→==_false (s.libev_list fd) null ne)
        (rw run (rw (lt→ltb fd max_client inside, append_assoc) refl)))

cleared :
    (list : ℕ → Ptr) (us : List ℕ) (fd : ℕ) (vs : List ℕ) (x : ℕ)
    → ((y : ℕ) → NotIn y (us ++ (fd ∷ vs)) → list y ≡ null)
    → NotIn x (us ++ vs)
    → update list fd null x ≡ null
cleared list us fd vs x empty o = elim (Bool-cases (x == fd)) [
  | inl same ↦ rw same refl
  | inr other ↦ rw other (empty x (NotIn-insert x fd us vs (ground arith) o))
]

-- `free_libev` of an open connection closes the descriptor and stops the watcher, gives the watcher back
-- to the pool, and leaves the other connections open.
pub free_libev-open :
    (s : Server) (us : List ℕ) (fd : ℕ) (vs bs : List ℕ)
    → IsWatching s (us ++ (fd ∷ vs)) bs
    → (t : Server) × (free_libev fd s ≡ ok tt t)
      × (t.log ≡ s.log ++ (close fd ∷ stop (s.libev_list fd) ∷ []))
      × IsWatching t (us ++ vs) (s.libev_list fd ∷ bs)
      × OnlyConnections s t
free_libev-open s us fd vs bs v =
    let w = s.libev_list fd in
    let s' : Server = record s { log = (s.log ++ (close fd ∷ [])) ++ (stop w ∷ []) } in
    let used =
      subst (IsPool s.ev_pool.heap s.ev_pool.pool bs) (watchers-append s.libev_list us fd vs)
        v.pool in
    let (b, run, p) =
      free_ev-used w s' bs (watchers s.libev_list us) (watchers s.libev_list vs) used in
    let (inside, rest) = All-remove (λ x. x < max_client) fd us vs v.inside in
    let (out, distinct) = Distinct-remove fd us vs v.distinct in
    (
      _,
      free_libev-run fd s b inside (open-ne-null s us fd vs bs v) run,
      refl,
      record {
        pool =
            rw
              (
                watchers-update s.libev_list fd null (us ++ vs) out,
                watchers-join s.libev_list us vs,
              )
              p;
        distinct = distinct;
        inside = rest;
        empty = λ x o. cleared s.libev_list us fd vs x v.empty o;
      },
      record {
        same_obd = refl;
        same_obds = refl;
        same_mq = refl;
        same_pool = refl;
        same_flag = refl;
      },
    )

-- `free_libev` of a descriptor without an open connection does nothing, unless it is 20480.
pub free_libev-closed :
    (s : Server) (fd : ℕ) (fds bs : List ℕ)
    → IsWatching s fds bs
    → NotIn fd fds
    → fd ≢ max_client
    → free_libev fd s ≡ ok tt s
unfolding free_libev get_slot
free_libev-closed s fd fds bs v o ne = elim (Bool-cases (ltb max_client fd)) [
  | inl far ↦ rw far refl
  | inr near ↦
      rw (near, lt→ltb fd max_client (ground arith))
        (rw (eq→== (s.libev_list fd) null (v.empty fd o)) refl)
]
