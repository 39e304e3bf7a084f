-- ===== src/Server/Fine/Runs.antt =====
-- Every run of the server in finer steps.
use footprints_ev.Base.{
  ℕ, ◌≡◌, ◌≢◌, refl, sym, ◌∙◌, ap, subst, Bool, Option, none, some, List, [], ◌∷◌, ◌++◌, get_elem?,
}
use footprints_ev.Pool.{Ptr, null}
use footprints_ev.Server.Fine.{
  Fine, Act, connects, begins_read, ends_read, polls, offers, works, back, with_server, with_system,
  fine_step, fine_run,
}
use footprints_ev.Server.Fine.Carrying.{turned_away, held, poll-IsSafe, offer-IsSafe}
use footprints_ev.Server.Fine.Reading.{Fresh, begin_read-IsSafe, end_read-IsSafe}
use footprints_ev.Server.Messages.{Received}
use footprints_ev.Server.Receive.{Fits}
use footprints_ev.Server.System.{System, connect, work}
use footprints_ev.Server.System.Callbacks.{connect-Reaches}
use footprints_ev.Server.System.Safe.{Places, IsSafe, Allowed}
use footprints_ev.ThreadPool.{ThreadPool}
use footprints_ev.Server.System.Work.Keeps.{hand-keeps}

-- The buffers with the event loop and with the dispatcher are apart from all others.
abbrev pub places : Option Ptr → Option Ptr → Places → Places
places reading carrying l = record l { lost = held reading ++ (held carrying ++ l.lost) }

abbrev pub IsFineSafe : Fine → Places → Type 0
IsFineSafe f l = IsSafe f.system (places f.reading f.carrying l)

-- what the surroundings promise at a step, as in `System`
abbrev pub Permitted : Act → Fine → Type 0
Permitted (connects a error client) f = Allowed (connect a error client) f.system
Permitted (begins_read a) f = Fresh a f.system.server
Permitted (ends_read error fd result) f = Fits result × (f.system.server.libev_list fd ≢ null)
Permitted polls f = Unit {0}
Permitted offers f = Unit {0}
Permitted (works i) f = Allowed (work i) f.system

-- the buffers that the thread pool turned away after a step: a message that is offered to a full one
abbrev turned : Option Ptr → ThreadPool → List Ptr → List Ptr
turned none pool lost = lost
turned (some p) pool lost = turned_away pool p lost

abbrev pub lost_by : Act → Fine → List Ptr → List Ptr
lost_by (connects a error client) f lost = lost
lost_by (begins_read a) f lost = lost
lost_by (ends_read error fd result) f lost = lost
lost_by polls f lost = lost
lost_by offers f lost = turned f.carrying f.system.server.thread_pool lost
lost_by (works i) f lost = lost

-- and after a run
abbrev pub lost_in : List Act → Fine → List Ptr → List Ptr
lost_in [] f lost = lost
lost_in (a ∷ as') f lost = elim (fine_step a f) [
  | none ↦ lost
  | some g ↦ lost_in as' g (lost_by a f lost)
]

lost_in-step :
    (a : Act) (as' : List Act) (f g : Fine) (lost : List Ptr)
    → fine_step a f ≡ some g
    → lost_in (a ∷ as') f lost ≡ lost_in as' g (lost_by a f lost)
lost_in-step a as' f g lost did =
    ap (λ r. elim r as (λ _. List Ptr) [ none ↦ lost | some h ↦ lost_in as' h (lost_by a f lost) ])
      did

-- the step returned to a safe server, and lost no buffer but one that the thread pool turned away
abbrev Steps : Act → Fine → Places → Option Fine → Type 0
Steps a f l r =
    (g : Fine) × (m : Places) × (r ≡ some g) × IsFineSafe g m × (m.lost ≡ lost_by a f l.lost)

abbrev fine : System → Option Ptr → Option Ptr → Fine
fine w reading carrying = record { system = w; reading = reading; carrying = carrying }

-- the buffers of the event loop and of the dispatcher, in places that end with them
replaced :
    (w : System) (m : Places) (reading carrying : Option Ptr) (lost : List Ptr)
    → IsSafe w m
    → m.lost ≡ held reading ++ (held carrying ++ lost)
    → IsFineSafe (fine w reading carrying) (record m { lost = lost })
replaced w m reading carrying lost g e = subst (λ x. IsSafe w (record m { lost = x })) e g

connects-IsSafe :
    (w : System) (l : Places) (reading carrying : Option Ptr) (a : Ptr) (error : Bool)
    (client : Option ℕ)
    → IsFineSafe (fine w reading carrying) l
    → Allowed (connect a error client) w
    → Steps
        (connects a error client)
        (fine w reading carrying)
        l
        (fine_step (connects a error client) (fine w reading carrying))
unfolding fine_step
connects-IsSafe w l (some p) carrying a error client g h = (_, l, refl, g, refl)
connects-IsSafe w l none carrying a error client g h =
    let (t, bs, run, g') = connect-Reaches w (places none carrying l) a error client g h in
    (
      fine (record w { server = t }) none carrying,
      record l { fds = _; spare = bs },
      ap (back λ u s. with_server (fine w none carrying) s) run,
      g',
      refl,
    )

begins-IsSafe :
    (w : System) (l : Places) (reading carrying : Option Ptr) (a : Ptr)
    → IsFineSafe (fine w reading carrying) l
    → Fresh a w.server
    → Steps
        (begins_read a)
        (fine w reading carrying)
        l
        (fine_step (begins_read a) (fine w reading carrying))
unfolding fine_step
begins-IsSafe w l (some p) carrying a g h = (_, l, refl, g, refl)
begins-IsSafe w l none carrying a g h =
    let (p, t, bs, run, g') = begin_read-IsSafe w (places none carrying l) a g h in
    (
      fine (record w { server = t }) (some p) carrying,
      record l { free = bs },
      ap (back λ p s. record (with_server (fine w none carrying) s) { reading = some p }) run,
      g',
      refl,
    )

ends-IsSafe :
    (w : System) (l : Places) (reading carrying : Option Ptr) (error : Bool) (fd : ℕ)
    (result : Received)
    → IsFineSafe (fine w reading carrying) l
    → Fits result
    → w.server.libev_list fd ≢ null
    → Steps
        (ends_read error fd result)
        (fine w reading carrying)
        l
        (fine_step (ends_read error fd result) (fine w reading carrying))
unfolding fine_step
ends-IsSafe w l none carrying error fd result g fit slot = (_, l, refl, g, refl)
ends-IsSafe w l (some p) carrying error fd result g fit slot =
    let (t, m, run, g', e) =
      end_read-IsSafe w (places none carrying l) error fd result p g fit slot in
    (
      fine (record w { server = t }) none carrying,
      record m { lost = l.lost },
      ap (back λ u s. record (with_server (fine w (some p) carrying) s) { reading = none }) run,
      replaced (record w { server = t }) m none carrying l.lost g' e,
      refl,
    )

polls-IsSafe :
    (w : System) (l : Places) (reading carrying : Option Ptr)
    → IsFineSafe (fine w reading carrying) l
    → Steps polls (fine w reading carrying) l (fine_step polls (fine w reading carrying))
unfolding fine_step
polls-IsSafe w l reading (some p) g = (_, l, refl, g, refl)
polls-IsSafe w l reading none g =
    let (current, t, xs, run, g') = poll-IsSafe w l (held reading) g in
    (
      fine (record w { server = t }) reading current,
      record l { queued = xs },
      ap (back λ r s. record (with_server (fine w reading none) s) { carrying = r.1 }) run,
      g',
      refl,
    )

offers-IsSafe :
    (w : System) (l : Places) (reading carrying : Option Ptr)
    → IsFineSafe (fine w reading carrying) l
    → Steps offers (fine w reading carrying) l (fine_step offers (fine w reading carrying))
unfolding fine_step
offers-IsSafe w l reading none g = (_, l, refl, g, refl)
offers-IsSafe w l reading (some p) g =
    let (t, m, run, g', e) = offer-IsSafe w l (held reading) p g in
    (
      fine (record w { server = t }) reading none,
      record m { lost = turned_away w.server.thread_pool p l.lost },
      ap (back λ u s. record (with_server (fine w reading (some p)) s) { carrying = none }) run,
      replaced (record w { server = t }) m reading none (turned_away w.server.thread_pool p l.lost)
          g' e,
      refl,
    )

works-IsSafe :
    (w : System) (l : Places) (reading carrying : Option Ptr) (i : ℕ)
    → IsFineSafe (fine w reading carrying) l
    → Allowed (work i) w
    → Steps (works i) (fine w reading carrying) l (fine_step (works i) (fine w reading carrying))
unfolding fine_step
works-IsSafe w l reading carrying i g h =
    let (u, m, run, g', e) =
      hand-keeps w (places reading carrying l) i (get_elem? w.hands i) g h refl in
    (
      fine u reading carrying,
      record m { lost = l.lost },
      ap (with_system (fine w reading carrying)) run,
      replaced u m reading carrying l.lost g' e,
      refl,
    )

fine_step-IsSafe :
    (a : Act) (f : Fine) (l : Places) → IsFineSafe f l → Permitted a f → Steps a f l (fine_step a f)
fine_step-IsSafe (connects a error client) f l g h =
    connects-IsSafe f.system l f.reading f.carrying a error client g h
fine_step-IsSafe (begins_read a) f l g h = begins-IsSafe f.system l f.reading f.carrying a g h
fine_step-IsSafe (ends_read error fd result) f l g h =
    ends-IsSafe f.system l f.reading f.carrying error fd result g h.0 h.1
fine_step-IsSafe polls f l g h = polls-IsSafe f.system l f.reading f.carrying g
fine_step-IsSafe offers f l g h = offers-IsSafe f.system l f.reading f.carrying g
fine_step-IsSafe (works i) f l g h = works-IsSafe f.system l f.reading f.carrying i g h

-- each step is permitted where its turn comes
abbrev pub Permits : List Act → Fine → Type 0
Permits [] f = Unit {0}
Permits (a ∷ as') f = Permitted a f × ((g : Fine) → fine_step a f ≡ some g → Permits as' g)

-- The safety of the server does not rest on callbacks and rounds that nobody interrupts: in every run of finer steps from
-- a safe server, whatever their order, each step returns, and the server is safe again, with the buffer that the event
-- loop holds in `read_func_cb` and the message that the dispatcher holds in its round apart from all others. What the
-- surroundings promise is as for runs of whole callbacks. No buffer gets lost, in `read_func_cb` or elsewhere, but the
-- messages that were offered while the thread pool had no free slot. Each call of `Malloc` and of `Free` is one step.
pub fine_run-IsSafe :
    (as' : List Act) (f : Fine) (l : Places)
    → IsFineSafe f l
    → Permits as' f
    → (g : Fine) × (m : Places) × (fine_run as' f ≡ some g)
      × IsFineSafe g m
      × (m.lost ≡ lost_in as' f l.lost)
fine_run-IsSafe [] f l g h = (f, l, refl, g, refl)
fine_run-IsSafe (a ∷ as') f l g (now, later) =
    let (f', m, did, g', e) = fine_step-IsSafe a f l g now in
    let (f'', n, rest, g'', e') = fine_run-IsSafe as' f' m g' (later f' did) in
    (
      f'',
      n,
      rw (did, fine_run) rest,
      g'',
      e' ∙ (ap (lost_in as' f') e ∙ sym (lost_in-step a as' f f' l.lost did)),
    )
