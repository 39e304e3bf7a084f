-- ===== src/Earlier/Driver/Stale.antt =====
-- What the callbacks of main.c do to the list of watchers.
use footprints_ev.Base.{
  ℕ, ◌%◌, ◌^◌, ◌≤◌, ◌<◌, ◌≡◌, ◌≢◌, refl, Bool, true, false, Option, none, some, [], ◌∷◌, ◌++◌,
  arith, update, update_self, ap, append_assoc, lt→ltb, le→ltb_false, ne→==_false, mod-eq_of_lt,
}
use footprints_ev.Pool.{Ptr, null}
use footprints_ev.Server.{max_client}
use footprints_ev.Server.Messages.{bytes}
use footprints_ev.Earlier.Driver.{Driver, close, stop, free_libev, ev_read_cb, ev_accept_cb}

-- A client of main.c that is gone leaves its watcher in the list: `ev_read_cb` closes the descriptor and frees the
-- watcher, but the slot still points to it. When the system hands out the descriptor again, `ev_accept_cb` leaks a
-- watcher and drops the connection, and another `free_libev` of it writes to the freed watcher.
ev_read_cb-stale :
    (slots fd w : ℕ) (s : Driver)
    → fd < slots
    → fd ≤ max_client
    → s.libev_list fd ≢ null
    → s.live (s.libev_list fd) ≡ true
    → (t : Driver) × (ev_read_cb slots false fd (bytes []) s ≡ some t)
      × (t.log ≡ s.log ++ (close fd ∷ stop (s.libev_list fd) ∷ []))
      × (t.libev_list ≡ s.libev_list)
      × (t.live (s.libev_list fd) ≡ false)
      × (free_libev slots fd t ≡ none)
      × (ev_accept_cb slots (some w) false (some fd) t
          ≡ some (record t { live = update t.live w true }))
unfolding ev_read_cb free_libev ev_accept_cb
ev_read_cb-stale slots fd w s inside small open' live =
    let w' = s.libev_list fd in
    let in_range = le→ltb_false max_client fd small in
    let in_list = lt→ltb fd slots inside in
    let set' = ne→==_false w' null open' in
    let gone = update_self s.live w' false in
    let t : Driver = record s {
      live = update s.live w' false;
      log = s.log ++ (close fd ∷ stop w' ∷ []);
    } in
    let small' : fd % 2 ^ 32 ≡ fd = mod-eq_of_lt (omega arith) in
    (
      t,
      rw (in_range, in_list, set', live)
          (rw live (
            ap (λ l. some (record t { log = l }))
              (append_assoc s.log (close fd ∷ []) (stop w' ∷ [])))),
      refl,
      refl,
      gone,
      rw (in_range, in_list, set', gone) refl,
      rw (small', in_range, in_list, set') refl,
    )

-- No call of `ev_accept_cb` that returns has registered a connection: it changes neither the list of watchers nor what
-- libev was told, whatever `malloc`, libev and `accept` return.
pub ev_accept_cb-registers_nothing :
    (slots : ℕ) (fresh : Option Ptr) (error : Bool) (client : Option ℕ) (s t : Driver)
    → ev_accept_cb slots fresh error client s ≡ some t
    → (t.libev_list ≡ s.libev_list) × (t.log ≡ s.log)
unfolding ev_accept_cb
ev_accept_cb-registers_nothing slots fresh error client s t e = ground arith
