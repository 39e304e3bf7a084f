-- ===== src/Server/Fine/Reading.antt =====
-- The two steps of `read_func_cb`.
use footprints_ev.Base.{
  ℕ, ◌≡◌, ◌≢◌, refl, sym, ◌∙◌, ap, subst, Bool, true, false, none, some, List, [], ◌∷◌, ◌++◌,
  append_assoc, inl, inr, if◌then◌else◌,
}
use footprints_ev.Pool.{Ptr, null}
use footprints_ev.Server.{Server, Run, ok}
use footprints_ev.Server.Fine.{finish_read}
use footprints_ev.Server.Messages.{Received, failed, bytes, obd_init}
use footprints_ev.Server.Moves.{given-IsServing, taken-IsServing, busy-IsMessage}
use footprints_ev.Obd.Bounds.{IsMessage}
use footprints_ev.Server.Receive.{takes, branches, Fits}
use footprints_ev.Server.Serving.{IsServing, IsServing-kept}
use footprints_ev.Server.Serving.Lifetime.{obd_init-IsServing, obd_release-IsServing}
use footprints_ev.Server.System.{System}
use footprints_ev.Server.System.Callbacks.{placed-IsSafe}
use footprints_ev.Server.System.Safe.{Places, IsSafe, held_by}
use footprints_ev.Server.Watchers.{IsWatching, find}
use footprints_ev.Server.Watchers.Close.{free_libev-open}
use footprints_ev.ThreadPool.{ThreadPool}
use footprints_ev.ThreadPool.Ring.{pending, IsRing}

-- Where the buffers stand that are neither queued nor with a worker or a task: `p` among them.
module _ (p : Ptr) (held waiting us vs : List Ptr) where
  front : held ++ (waiting ++ (us ++ vs)) ≡ (held ++ (waiting ++ us)) ++ vs
  front =
      ap (λ l. held ++ l) (sym (append_assoc waiting us vs))
      ∙ sym (append_assoc held (waiting ++ us) vs)

  front-cons : held ++ (waiting ++ (us ++ (p ∷ vs))) ≡ (held ++ (waiting ++ us)) ++ (p ∷ vs)
  front-cons =
      ap (λ l. held ++ l) (sym (append_assoc waiting us (p ∷ vs)))
      ∙ sym (append_assoc held (waiting ++ us) (p ∷ vs))

-- a buffer of theirs, as one that is held
pub lost-taken :
    (s : Server) (p : Ptr) (bs xs held waiting us vs : List Ptr)
    → IsServing s bs [] xs (held ++ (waiting ++ (us ++ (p ∷ vs))))
    → IsServing s bs (p ∷ []) xs (held ++ (waiting ++ (us ++ vs)))
lost-taken s p bs xs held waiting us vs v =
    subst (IsServing s bs (p ∷ []) xs) (sym (front p held waiting us vs)) (
      taken-IsServing s p bs xs (held ++ (waiting ++ us)) vs
        (subst (IsServing s bs [] xs) (front-cons p held waiting us vs) v))

-- and back
pub lost-given :
    (s : Server) (p : Ptr) (bs xs held waiting us vs : List Ptr)
    → IsServing s bs (p ∷ []) xs (held ++ (waiting ++ (us ++ vs)))
    → IsMessage (s.obds p)
    → IsServing s bs [] xs (held ++ (waiting ++ (us ++ (p ∷ vs))))
lost-given s p bs xs held waiting us vs v m =
    subst (IsServing s bs [] xs) (sym (front-cons p held waiting us vs)) (
      given-IsServing s p bs xs (held ++ (waiting ++ us)) vs
        (subst (IsServing s bs (p ∷ []) xs) (front p held waiting us vs) v) m)

-- each of them is a message
pub lost-IsMessage :
    (s : Server) (p : Ptr) (bs xs held waiting us vs : List Ptr)
    → IsServing s bs [] xs (held ++ (waiting ++ (us ++ (p ∷ vs))))
    → IsMessage (s.obds p)
lost-IsMessage s p bs xs held waiting us vs v =
    busy-IsMessage s p bs [] xs (held ++ (waiting ++ us)) vs
      (subst (IsServing s bs [] xs) (front-cons p held waiting us vs) v)

-- what the surroundings promise when `OBD_init` allocates
abbrev pub Fresh : Ptr → Server → Type 0
Fresh a s =
    (a ≢ null)
    × (s.obd_pool.heap.size a ≡ none)
    × (s.obd_mq.heap.live a ≡ true)
    × (a ≢ s.obd_mq.list)

pub begin_read-IsSafe :
    (w : System) (l : Places) (a : Ptr)
    → IsSafe w l
    → Fresh a w.server
    → (p : Ptr) × (t : Server) × (bs : List Ptr) × (obd_init (some a) w.server ≡ ok p t)
      × IsSafe (record w { server = t }) (record l { free = bs; lost = p ∷ l.lost })
begin_read-IsSafe w l a g (ne, fresh, live, apart) =
    let busy = held_by w.hands ++ (l.waiting ++ l.lost) in
    let (p, bs, t, run, v, message, _, only) =
      obd_init-IsServing a w.server l.free l.queued busy g.serving ne fresh live apart in
    (
      p,
      t,
      bs,
      run,
      placed-IsSafe w l w.hands t bs l.queued (p ∷ l.lost) g only
          (lost-given t p bs l.queued (held_by w.hands) l.waiting [] l.lost v message),
    )

-- what a step that ends a callback leaves: no buffer with the event loop
abbrev pub Ends : System → Ptr → List Ptr → Run (Unit {0}) → Type 0
Ends w p lost r =
    (t : Server) × (m : Places) × (r ≡ ok tt t)
    × IsSafe (record w { server = t }) m
    × (m.lost ≡ lost)

end_read-present :
    (w : System) (l : Places) (error : Bool) (fd : ℕ) (result : Received) (p : Ptr)
    → IsSafe w (record l { lost = p ∷ l.lost })
    → Fits result
    → result ≢ bytes []
    → Ends w p l.lost (finish_read error fd result p w.server)
unfolding finish_read
end_read-present w l error fd result p g fit here =
    let held = held_by w.hands in
    let v = lost-taken w.server p l.free l.queued held l.waiting [] l.lost g.serving in
    let m = lost-IsMessage w.server p l.free l.queued held l.waiting [] l.lost g.serving in
    let (t, bs, run, v', _, only) =
      branches error result fd p w.server l.free l.queued (held ++ (l.waiting ++ l.lost)) v m.sized
        fit here in
    (
      t,
      record l { free = bs; queued = if takes error result then p ∷ l.queued else l.queued },
      run,
      placed-IsSafe w (record l { lost = p ∷ l.lost }) w.hands t bs _ l.lost g only v',
      refl,
    )

end_read-gone :
    (w : System) (l : Places) (fd : ℕ) (p : Ptr)
    → IsSafe w (record l { lost = p ∷ l.lost })
    → w.server.libev_list fd ≢ null
    → Ends w p l.lost (finish_read false fd (bytes []) p w.server)
unfolding finish_read
end_read-gone w l fd p g slot = elim (find fd l.fds) [
  | inr out ↦ absurd (slot (g.watching.empty fd out))
  | inl (us, vs, e) ↦
      let held = held_by w.hands in
      let v = lost-taken w.server p l.free l.queued held l.waiting [] l.lost g.serving in
      let (u, released, v', _, only, _) =
        obd_release-IsServing w.server p l.free l.queued (held ++ (l.waiting ++ l.lost)) v in
      let mid : IsSafe (record w { server = u }) (record l { free = p ∷ l.free }) =
        placed-IsSafe w (record l { lost = p ∷ l.lost }) w.hands u (p ∷ l.free) l.queued l.lost g
          only v' in
      let (t, closed, _, watching, only') =
        free_libev-open u us fd vs l.spare
          (subst (λ fds. IsWatching u fds l.spare) e mid.watching) in
      (
        t,
        record l { fds = us ++ vs; spare = u.libev_list fd ∷ l.spare; free = p ∷ l.free },
        rw released closed,
        record {
          serving = IsServing-kept only' mid.serving;
          watching = watching;
          ring = subst IsRing (sym only'.same_pool) mid.ring;
          unlocked = ap (λ (p : ThreadPool). p.locked) only'.same_pool ∙ mid.unlocked;
          on = ap (λ (p : ThreadPool). p.shutdown) only'.same_pool ∙ mid.on;
          tasks = ap pending only'.same_pool ∙ mid.tasks;
          flag = only'.same_flag ∙ mid.flag;
        },
        refl,
      )
]

pub end_read-IsSafe :
    (w : System) (l : Places) (error : Bool) (fd : ℕ) (result : Received) (p : Ptr)
    → IsSafe w (record l { lost = p ∷ l.lost })
    → Fits result
    → w.server.libev_list fd ≢ null
    → Ends w p l.lost (finish_read error fd result p w.server)
unfolding finish_read
end_read-IsSafe w l true fd result p g fit slot =
    end_read-present w l true fd failed p g tt (λ e. cc)
end_read-IsSafe w l false fd failed p g fit slot =
    end_read-present w l false fd failed p g fit (λ e. cc)
end_read-IsSafe w l false fd (bytes []) p g fit slot = end_read-gone w l fd p g slot
end_read-IsSafe w l false fd (bytes (b ∷ bs)) p g fit slot =
    end_read-present w l false fd (bytes (b ∷ bs)) p g fit (λ e. cc)
