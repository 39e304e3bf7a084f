-- ===== src/Server/System/Work/Keeps.antt =====
-- A step of a worker, and the buffers that neither the queue nor the thread pool knows.
use footprints_ev.Base.{ℕ, ◌≡◌, refl, Option, none, some, List, [], ◌∷◌, get_elem?}
use footprints_ev.Pool.{Ptr}
use footprints_ev.Server.System.{System, Hand, idle, decoding, left, work, step}
use footprints_ev.Server.System.Callbacks.{Reaches}
use footprints_ev.Server.System.Safe.{Places, IsSafe, Allowed}
use footprints_ev.Server.System.Work.{idle-waits, take-Reaches, finished-Reaches}

-- A step of a worker turns no buffer away.
abbrev pub Kept : System → Places → Option System → Type 0
Kept w l r = (u : System) × (m : Places) × (r ≡ some u) × IsSafe u m × (m.lost ≡ l.lost)

kept :
    (w : System) (l m : Places) (hands : List Hand) (r : Option System)
    → Reaches w m hands r
    → m.lost ≡ l.lost
    → Kept w l r
kept w l m hands r (t, run, g, _) same = (record { server = t; hands = hands }, m, run, g, same)

idle-keeps :
    (w : System) (l : Places) (i : ℕ) (waiting : List Ptr)
    → IsSafe w l
    → get_elem? w.hands i ≡ some idle
    → l.waiting ≡ waiting
    → Kept w l (step (work i) w)
idle-keeps w l i [] g e none_left = (w, l, idle-waits w l i g e none_left, g, refl)
idle-keeps w l i (p ∷ younger) g e some_left =
    kept w l _ _ _ (take-Reaches w l i p younger g e some_left) refl

pub hand-keeps :
    (w : System) (l : Places) (i : ℕ) (hand : Option Hand)
    → IsSafe w l
    → Allowed (work i) w
    → get_elem? w.hands i ≡ hand
    → Kept w l (step (work i) w)
unfolding step
hand-keeps w l i none g h e = (w, l, rw e refl, g, refl)
hand-keeps w l i (some idle) g h e = idle-keeps w l i l.waiting g e refl
hand-keeps w l i (some (decoding p)) g h e =
    kept w l _ _ _ (finished-Reaches w l i p g e (h p e)) refl
hand-keeps w l i (some left) g h e = (w, l, rw e refl, g, refl)
