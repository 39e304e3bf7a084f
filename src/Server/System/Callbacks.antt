-- ===== src/Server/System/Callbacks.antt =====
-- The callbacks of the event loop return, and keep the invariant.
use footprints_ev.Base.{
  ℕ, ◌≡◌, ◌≢◌, refl, sym, ◌∙◌, ap, subst, Bool, true, false, Option, some, List, [], ◌∷◌, ◌++◌, inl,
  inr, if◌then◌else◌,
}
use footprints_ev.Pool.{Ptr}
use footprints_ev.Server
use footprints_ev.Server.{Server, ok, max_client}
use footprints_ev.Server.Frame.{OnlyMessages, SameLengths}
use footprints_ev.Server.Connections.{accept_func_cb}
use footprints_ev.Server.Messages.{Received, failed, bytes, read_func_cb}
use footprints_ev.Server.Receive.{takes, read_func_cb-IsServing}
use footprints_ev.Server.Receive.Gone.{read_func_cb-gone}
use footprints_ev.Server.Serving.{IsServing, IsServing-kept}
use footprints_ev.Server.System.{
  System, Hand, idle, decoding, left, Event, connect, readable, round, work, step, with_pool,
}
use footprints_ev.Mq.{State}
use footprints_ev.Mq.IsQueue.{IsQueue}
use footprints_ev.Server.System.Observe.{observe, newest}
use footprints_ev.Server.System.Safe.{Places, IsSafe, Allowed, held_by}
use footprints_ev.Server.System.Traffic.{Traffic, Label, silent, arrives, Move, stay, arrive, view}
use footprints_ev.Server.Watchers.{IsWatching, IsWatching-kept, find}
use footprints_ev.Server.Watchers.Accept.{accept_func_cb-IsWatching, opened}
use footprints_ev.ThreadPool.{ThreadPool}
use footprints_ev.ThreadPool.Ring.{pending, IsRing}

-- the step returned to a safe system, and did to the messages what the specification does with what was observed
abbrev pub Steps : Event → System → Places → Option System → Type 0
Steps e w l r =
    (u : System) × (m : Places) × (r ≡ some u)
    × IsSafe u m
    × Move (view l w.hands) (observe e w u) (view m u.hands)

-- the step returned, with these workers, to a server that is safe with the buffers at these places
abbrev pub Reaches : System → Places → List Hand → Option System → Type 0
Reaches w m hands r =
    (t : Server) × (r ≡ some (record { server = t; hands = hands }))
    × IsSafe (record { server = t; hands = hands }) m
    × SameLengths w.server.obds t.obds

pub reached :
    (e : Event) (w : System) (l m : Places) (hands : List Hand) (label : Label) (r : Option System)
    → Move (view l w.hands) label (view m hands)
    → ((t : Server)
        → IsSafe (record { server = t; hands = hands }) m
        → observe e w (record { server = t; hands = hands }) ≡ label)
    → Reaches w m hands r
    → Steps e w l r
reached e w l m hands label r move seen (t, run, g, _) = (
  record { server = t; hands = hands },
  m,
  run,
  g,
  subst (λ x. Move (view l w.hands) x (view m hands)) (sym (seen t g)) move,
)

abbrev pub returned_to-ok :
    {A : Type 0} {r : Server.Run A} {a : A} {t : Server} (hands : List Hand)
    → r ≡ ok a t
    → Server.System.returned_to hands r ≡ some (record { server = t; hands = hands })
returned_to-ok hands e = rw e refl

-- a callback for a new connection, with the places afterwards
pub connect-Reaches :
    (w : System) (l : Places) (a : Ptr) (error : Bool) (client : Option ℕ)
    → IsSafe w l
    → Allowed (connect a error client) w
    → (t : Server) × (bs : List Ptr) × (accept_func_cb (some a) error client w.server ≡ ok tt t)
      × IsSafe
          (record w { server = t })
          (record l { fds = opened w.server.libev_list error client l.fds; spare = bs })
connect-Reaches w l a error client g (ne, fresh, past) =
    let (t, bs, run, watching, only) =
      accept_func_cb-IsWatching a error client w.server l.fds l.spare g.watching ne fresh past in
    (
      t,
      bs,
      run,
      record {
        serving = IsServing-kept only g.serving;
        watching = watching;
        ring = subst IsRing (sym only.same_pool) g.ring;
        unlocked = ap (λ (p : ThreadPool). p.locked) only.same_pool ∙ g.unlocked;
        on = ap (λ (p : ThreadPool). p.shutdown) only.same_pool ∙ g.on;
        tasks = ap pending only.same_pool ∙ g.tasks;
        flag = only.same_flag ∙ g.flag;
      },
    )

pub connect-IsSafe :
    (w : System) (l : Places) (a : Ptr) (error : Bool) (client : Option ℕ)
    → IsSafe w l
    → Allowed (connect a error client) w
    → Steps (connect a error client) w l (step (connect a error client) w)
unfolding step
connect-IsSafe w l a error client g h =
    let (t, bs, run, g') = connect-Reaches w l a error client g h in
    (
      record w { server = t },
      record l { fds = opened w.server.libev_list error client l.fds; spare = bs },
      returned_to-ok w.hands run,
      g',
      stay refl,
    )

-- What a call did to the buffers and the queue alone.
pub placed-IsSafe :
    (w : System) (l : Places) (hands : List Hand) (t : Server) (bs xs lost : List Ptr)
    → IsSafe w l
    → OnlyMessages w.server t
    → IsServing t bs [] xs (held_by hands ++ (l.waiting ++ lost))
    → IsSafe
        (record { server = t; hands = hands })
        (record l { free = bs; queued = xs; lost = lost })
placed-IsSafe w l hands t bs xs lost g only serving = record {
  serving = serving;
  watching = IsWatching-kept only g.watching;
  ring = subst IsRing (sym only.same_pool) g.ring;
  unlocked = ap (λ (p : ThreadPool). p.locked) only.same_pool ∙ g.unlocked;
  on = ap (λ (p : ThreadPool). p.shutdown) only.same_pool ∙ g.on;
  tasks = ap pending only.same_pool ∙ g.tasks;
  flag = only.same_flag ∙ g.flag;
}

pub messages-IsSafe :
    (w : System) (l : Places) (hands : List Hand) (t : Server) (bs xs : List Ptr)
    → IsSafe w l
    → OnlyMessages w.server t
    → IsServing t bs [] xs (held_by hands ++ (l.waiting ++ l.lost))
    → IsSafe (record { server = t; hands = hands }) (record l { free = bs; queued = xs })
messages-IsSafe w l hands t bs xs g only serving =
    placed-IsSafe w l hands t bs xs l.lost g only serving

received-Move :
    (takes : Bool) (p : Ptr) (a : Traffic) (s : State)
    → IsQueue s (if takes then p ∷ a.queued else a.queued)
    → Move a
        (if takes then arrives (newest s) else silent)
        (record a { queued = if takes then p ∷ a.queued else a.queued })
received-Move true p a s q =
    subst (λ x. Move a (arrives x) (record a { queued = p ∷ a.queued })) (sym q.next_chain.0)
      (arrive p refl)
received-Move false p a s q = stay refl

readable-present :
    (w : System) (l : Places) (a : Ptr) (error : Bool) (fd : ℕ) (result : Received)
    → IsSafe w l
    → Allowed (readable a error fd result) w
    → result ≢ bytes []
    → Steps (readable a error fd result) w l (step (readable a error fd result) w)
unfolding step
readable-present w l a error fd result g (ne, fresh, live, apart, fit, _) here =
    let (p, (t, bs, run, serving, log, only)) =
      read_func_cb-IsServing a error fd result w.server l.free l.queued _ g.serving ne fresh live
        apart fit here in
    (
      record w { server = t },
      record l { free = bs; queued = if takes error result then p ∷ l.queued else l.queued },
      returned_to-ok w.hands run,
      messages-IsSafe w l w.hands t bs _ g only serving,
      received-Move (takes error result) p (view l w.hands) t.obd_mq serving.queue,
    )

readable-gone :
    (w : System) (l : Places) (a : Ptr) (fd : ℕ)
    → IsSafe w l
    → Allowed (readable a false fd (bytes [])) w
    → Steps (readable a false fd (bytes [])) w l (step (readable a false fd (bytes [])) w)
unfolding step
readable-gone w l a fd g (ne, fresh, live, apart, _, slot) = elim (find fd l.fds) [
  | inr out ↦ absurd (slot (g.watching.empty fd out))
  | inl (us, vs, e) ↦
      let (t, bs, run, serving, watching, log, same) =
        read_func_cb-gone a w.server l.free l.queued _ us fd vs l.spare g.serving
          (subst (λ fds. IsWatching w.server fds l.spare) e g.watching) ne fresh live apart in
      (
        record w { server = t },
        record l { fds = us ++ vs; spare = w.server.libev_list fd ∷ l.spare; free = bs },
        returned_to-ok w.hands run,
        record {
          serving = serving;
          watching = watching;
          ring = subst IsRing (sym same.same_pool) g.ring;
          unlocked = ap (λ (p : ThreadPool). p.locked) same.same_pool ∙ g.unlocked;
          on = ap (λ (p : ThreadPool). p.shutdown) same.same_pool ∙ g.on;
          tasks = ap pending same.same_pool ∙ g.tasks;
          flag = same.same_flag ∙ g.flag;
        },
        stay refl,
      )
]

pub readable-IsSafe :
    (w : System) (l : Places) (a : Ptr) (error : Bool) (fd : ℕ) (result : Received)
    → IsSafe w l
    → Allowed (readable a error fd result) w
    → Steps (readable a error fd result) w l (step (readable a error fd result) w)
unfolding step read_func_cb
readable-IsSafe w l a true fd result g (ne, fresh, live, apart, fit, slot) =
    readable-present w l a true fd failed g (ne, fresh, live, apart, tt, slot) (λ e. cc)
readable-IsSafe w l a false fd failed g h = readable-present w l a false fd failed g h (λ e. cc)
readable-IsSafe w l a false fd (bytes []) g h = readable-gone w l a fd g h
readable-IsSafe w l a false fd (bytes (b ∷ bs)) g h =
    readable-present w l a false fd (bytes (b ∷ bs)) g h (λ e. cc)
