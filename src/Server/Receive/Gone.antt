-- ===== src/Server/Receive/Gone.antt =====
-- `read_func_cb` where the client is gone.
use footprints_ev.Base.{ℕ, ◌≡◌, ◌≢◌, ap, ◌∙◌, subst, true, false, some, none, List, [], ◌∷◌, ◌++◌}
use footprints_ev.Pool.{Ptr, null}
use footprints_ev.Server.{Server, close, stop, ok}
use footprints_ev.Server.Messages.{bytes, read_func_cb}
use footprints_ev.Server.Frame.{then_messages, SameTasks}
use footprints_ev.Server.Watchers.{IsWatching, IsWatching-kept}
use footprints_ev.Server.Watchers.Close.{free_libev-open}
use footprints_ev.Server.Serving.{IsServing, IsServing-kept}
use footprints_ev.Server.Serving.Lifetime.{obd_init-IsServing, obd_release-IsServing}

-- Where the client of an open connection is gone, `read_func_cb` gives back the buffer, so that each one that was
-- allocated is free, queued or with the thread pool as before, closes the descriptor, stops the watcher and gives it
-- back too: the other connections stay open, and no message is queued or dropped.
pub read_func_cb-gone :
    (a : Ptr) (s : Server) (bs xs busy us : List ℕ) (fd : ℕ) (vs ws : List ℕ)
    → IsServing s bs [] xs busy
    → IsWatching s (us ++ (fd ∷ vs)) ws
    → a ≢ null
    → s.obd_pool.heap.size a ≡ none
    → s.obd_mq.heap.live a ≡ true
    → a ≢ s.obd_mq.list
    → (t : Server) × (bs' : List ℕ) × (read_func_cb (some a) false fd (bytes []) s ≡ ok tt t)
      × IsServing t bs' [] xs busy
      × IsWatching t (us ++ vs) (s.libev_list fd ∷ ws)
      × (t.log ≡ s.log ++ (close fd ∷ stop (s.libev_list fd) ∷ []))
      × SameTasks s t
unfolding read_func_cb
read_func_cb-gone a s bs xs busy us fd vs ws v w ne fresh live apart =
    let (p, bs', t, run, v', _, log, only) =
      obd_init-IsServing a s bs xs busy v ne fresh live apart in
    let (u, released, v'', log', only', _) = obd_release-IsServing t p bs' xs busy v' in
    let before = then_messages only only' in
    let (z, closed, log'', w', only'') = free_libev-open u us fd vs ws (IsWatching-kept before w) in
    (
      z,
      p ∷ bs',
      rw run (rw released closed),
      IsServing-kept only'' v'',
      subst (λ l. IsWatching z (us ++ vs) (l fd ∷ ws)) before.same_list w',
      log''
          ∙ (ap (λ l. u.log ++ (close fd ∷ stop (l fd) ∷ [])) before.same_list
              ∙ ap (λ l. l ++ (close fd ∷ stop (s.libev_list fd) ∷ [])) (log' ∙ log)),
      record {
        same_pool = only''.same_pool ∙ before.same_pool;
        same_flag = only''.same_flag ∙ before.same_flag;
      },
    )
