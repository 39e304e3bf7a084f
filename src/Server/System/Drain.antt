-- ===== src/Server/System/Drain.antt =====
-- A worker empties the server.
use footprints_ev.Base.{
  ℕ, zero, suc, ◌≡◌, ◌≢◌, ◌⊎◌, inl, inr, refl, sym, ◌∙◌, ap, subst, false, Option, none, some, List,
  [], ◌∷◌, ◌++◌, arith, get_elem?, set, length, map, ◌==◌, ne→==_false,
}
use footprints_ev.Base.Distinct.{All}
use footprints_ev.Obd.{Obd}
use footprints_ev.Pool.{Ptr}
use footprints_ev.Server.Frame.{SameLengths}
use footprints_ev.Server.System.{
  System, Hand, idle, decoding, Event, round, work, step, run, run_from,
}
use footprints_ev.Server.System.Safe.{Places, IsSafe}
use footprints_ev.Server.System.Callbacks.{Reaches}
use footprints_ev.Server.System.Rounds.{round-Reaches, room-Placed}
use footprints_ev.Server.System.Work.{get_elem?-set, take-Reaches, finished-Reaches}
use footprints_ev.Server.Tasks.{obd_decode_thread}
use footprints_ev.ThreadPool.Enqueue.{task_of}
use mathlib.Core.List.{reverse, reverse-cons, reverse-reverse}

run_from-append :
    (es fs : List Event) (w : Option System) → run_from (es ++ fs) w ≡ run_from fs (run_from es w)
run_from-append [] fs w = refl
run_from-append (e ∷ es) [] none = refl
run_from-append (e ∷ es) (f ∷ fs) none = refl
run_from-append (e ∷ es) fs (some w) = run_from-append es fs (step e w)

-- a round of the dispatcher, or a step of worker `i`
abbrev pub IsRoundOrWork : ℕ → Event → Type 0
IsRoundOrWork i e = (e ≡ round) ⊎ (e ≡ work i)

-- the runs from `w` that reach places by rounds of the dispatcher and steps of worker `i` alone
abbrev pub Ends : ℕ → System → Places → Type 0
Ends i w m = (es : List Event) × All (IsRoundOrWork i) es × Reaches w m w.hands (run es w)

All-join :
    (i : ℕ) (es fs : List Event)
    → All (IsRoundOrWork i) es
    → All (IsRoundOrWork i) fs
    → All (IsRoundOrWork i) (es ++ fs)
All-join i [] fs a b = b
All-join i (e ∷ es) fs a b = (a.0, All-join i es fs a.1 b)

then_run :
    (w : System) (l m : Places) (hands : List Hand) (es fs : List Event)
    → (r : Reaches w l hands (run es w))
    → Reaches
        (record { server = r.0; hands = hands })
        m
        w.hands
        (run fs (record { server = r.0; hands = hands }))
    → Reaches w m w.hands (run (es ++ fs) w)
then_run w l m hands es fs (t, did, _, lengths) (u, rest, g, lengths') = (
  u,
  run_from-append es fs (some w) ∙ (ap (run_from fs) did ∙ rest),
  g,
  λ q. lengths' q ∙ lengths q,
)

set-set_back :
    (hs : List Hand) (i : ℕ) (h h' : Hand) → get_elem? hs i ≡ some h → set (set hs i h') i h ≡ hs
set-set_back [] i h h' e = refl
set-set_back (x ∷ hs) zero h h' e = ap (λ r. r ∷ hs) (cc)
set-set_back (x ∷ hs) (suc i) h h' e = ap (λ r. x ∷ r) (set-set_back hs i h h' e)

-- the buffers given back one by one
abbrev pub give_back : List Ptr → List Ptr → List Ptr
give_back [] free = free
give_back (p ∷ ps) free = give_back ps (p ∷ free)

abbrev pub Short : (Ptr → Obd) → Ptr → Type 0
Short obds p = (obds p).data_length ≢ 255

pub still-Short :
    (f g : Ptr → Obd) (ps : List Ptr) → SameLengths f g → All (Short f) ps → All (Short g) ps
still-Short f g [] same a = tt
still-Short f g (p ∷ ps) same (a, others) =
    ((λ e. a (sym (same p) ∙ e)), still-Short f g ps same others)

-- a worker takes the oldest task and ends it
serve-one :
    (w : System) (l : Places) (i p : ℕ) (younger : List Ptr)
    → IsSafe w l
    → get_elem? w.hands i ≡ some idle
    → l.waiting ≡ p ∷ younger
    → Short w.server.obds p
    → Reaches w
        (record l { waiting = younger; free = p ∷ l.free })
        w.hands
        (run (work i ∷ work i ∷ []) w)
serve-one w l i p younger g e first short =
    let hands = set w.hands i (decoding p) in
    let (t, took, g', same) = take-Reaches w l i p younger g e first in
    let u : System = record { server = t; hands = hands } in
    let (t', ended, g'', same') =
      finished-Reaches u (record l { waiting = younger }) i p g'
        (get_elem?-set w.hands i idle (decoding p) e) (λ e'. short (sym (same p) ∙ e')) in
    let back = set-set_back w.hands i idle (decoding p) e in
    let m : Places = record l { waiting = younger; free = p ∷ l.free } in
    (
      t',
      ap (λ o. run_from (work i ∷ []) o) took
          ∙ (ended ∙ ap (λ hs. some (record { server = t'; hands = hs })) back),
      subst (λ hs. IsSafe (record { server = t'; hands = hs }) m) back g'',
      λ q. same' q ∙ same q,
    )

drain-tasks :
    (ps : List Ptr) (w : System) (l : Places) (i : ℕ)
    → IsSafe w l
    → get_elem? w.hands i ≡ some idle
    → l.waiting ≡ ps
    → All (Short w.server.obds) ps
    → Ends i w (record l { waiting = []; free = give_back ps l.free })
drain-tasks [] w l i g e none_left short = (
  [],
  tt,
  (w.server, refl, subst (λ ps. IsSafe w (record l { waiting = ps })) none_left g, λ q. refl),
)
drain-tasks (p ∷ ps) w l i g e some_left (short, others) =
    let first = serve-one w l i p ps g e some_left short in
    let (t, did, g', same) = first in
    let m : Places = record l { waiting = ps; free = p ∷ l.free } in
    let (es, mine, rest) =
      drain-tasks ps (record w { server = t }) m i g' e refl
        (still-Short w.server.obds t.obds ps same others) in
    (
      work i ∷ work i ∷ es,
      (inr refl, (inr refl, mine)),
      then_run w m (record l { waiting = []; free = give_back ps (p ∷ l.free) }) w.hands
          (work i ∷ work i ∷ []) es first rest,
    )

-- the oldest message first
drain-queue :
    (zs : List Ptr) (w : System) (l : Places) (i : ℕ)
    → IsSafe w l
    → get_elem? w.hands i ≡ some idle
    → l.waiting ≡ []
    → l.queued ≡ reverse zs
    → All (Short w.server.obds) zs
    → Ends i w (record l { queued = []; waiting = []; free = give_back zs l.free })
drain-queue [] w l i g e none_left none_queued short = (
  [],
  tt,
  (
    w.server,
    refl,
    subst (λ qs. IsSafe w (record l { waiting = []; queued = qs })) none_queued
        (subst (λ ps. IsSafe w (record l { waiting = ps })) none_left g),
    λ q. refl,
  ),
)
drain-queue (z ∷ zs) w l i g e none_left queued (short, others) =
    let cap = w.server.thread_pool.queue_size in
    let inside = g.ring.head_in in
    let room : (length (map (task_of obd_decode_thread) l.waiting) == cap) ≡ false =
      subst (λ ps. (length (map (task_of obd_decode_thread) ps) == cap) ≡ false) (sym none_left)
        (ne→==_false 0 cap (λ e. omega arith)) in
    let ys = reverse zs in
    let m : Places = record l { queued = ys; waiting = l.waiting ++ (z ∷ []) } in
    let first =
      round-Reaches w l ys z (l.waiting ++ (z ∷ [])) l.lost g (queued ∙ reverse-cons z zs)
        (room-Placed cap z l w.hands ys room) in
    let (t, _, g', same) = first in
    let u : System = record w { server = t } in
    let second =
      serve-one u m i z [] g' e (ap (λ ps. ps ++ (z ∷ [])) none_left)
        (λ e'. short (sym (same z) ∙ e')) in
    let (t', _, g'', same') = second in
    let v : System = record w { server = t' } in
    let n : Places = record m { waiting = []; free = z ∷ l.free } in
    let o : Places = record n { queued = []; free = give_back zs (z ∷ l.free) } in
    let (es, mine, rest) =
      drain-queue zs v n i g'' e refl refl
        (still-Short w.server.obds t'.obds zs (λ q. same' q ∙ same q) others) in
    (
      round ∷ work i ∷ work i ∷ es,
      (inl refl, (inr refl, (inr refl, mine))),
      then_run w m o w.hands (round ∷ []) (work i ∷ work i ∷ es) first
          (then_run u n o w.hands (work i ∷ work i ∷ []) es second rest),
    )

All-split : (P : Ptr → Type 0) (xs ys : List Ptr) → All P (xs ++ ys) → All P xs × All P ys
All-split P [] ys a = (tt, a)
All-split P (x ∷ xs) ys (a, rest) = let (here, there) = All-split P xs ys rest in ((a, here), there)

give_back-append :
    (xs ys free : List Ptr) → give_back (xs ++ ys) free ≡ give_back ys (give_back xs free)
give_back-append [] ys free = refl
give_back-append (x ∷ xs) ys free = give_back-append xs ys (x ∷ free)

-- From every safe server with an idle worker, where no message that is queued or pending is of 255 characters, rounds
-- of the dispatcher and steps of that worker alone lead to one where none is queued or pending: the pending
-- tasks are done and then the queued messages, the oldest first, and each buffer is given back in turn. What the
-- other workers hold, the open descriptors and the buffers that the pool turned away stay as they are.
pub drains :
    (w : System) (l : Places) (i : ℕ)
    → IsSafe w l
    → get_elem? w.hands i ≡ some idle
    → All (Short w.server.obds) (l.waiting ++ reverse l.queued)
    → Ends i w (record l {
      queued = [];
      waiting = [];
      free = give_back (l.waiting ++ reverse l.queued) l.free;
    })
drains w l i g e short =
    let zs = reverse l.queued in
    let (pending_short, queued_short) = All-split (Short w.server.obds) l.waiting zs short in
    let (es, tasks_mine, tasks) = drain-tasks l.waiting w l i g e refl pending_short in
    let (t, _, g', same) = tasks in
    let m : Places = record l { waiting = []; free = give_back l.waiting l.free } in
    let u : System = record w { server = t } in
    let (fs, queue_mine, queue) =
      drain-queue zs u m i g' e refl (sym (reverse-reverse l.queued))
        (still-Short w.server.obds t.obds zs same queued_short) in
    let n : Places = record l {
      queued = [];
      waiting = [];
      free = give_back zs (give_back l.waiting l.free);
    } in
    (
      es ++ fs,
      All-join i es fs tasks_mine queue_mine,
      subst (λ free. Reaches w (record n { free = free }) w.hands (run (es ++ fs) w))
          (sym (give_back-append l.waiting zs l.free)) (then_run w m n w.hands es fs tasks queue),
    )
