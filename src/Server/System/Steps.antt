-- ===== src/Server/System/Steps.antt =====
-- Each kind of step returns, and keeps the invariant.
use footprints_ev.Base.{refl, get_elem?}
use footprints_ev.Server.System.{System, Event, connect, readable, round, work, step}
use footprints_ev.Server.System.Safe.{Places, IsSafe, Allowed}
use footprints_ev.Server.System.Callbacks.{Steps, connect-IsSafe, readable-IsSafe}
use footprints_ev.Server.System.Rounds.{round-IsSafe}
use footprints_ev.Server.System.Work.{hand-IsSafe}

-- Every allowed step of a safe server returns, and leaves it safe: no callback, round or task accesses memory
-- outside an object, frees a block twice, waits for ever or loops for ever.
pub step-IsSafe :
    (e : Event) (w : System) (l : Places) → IsSafe w l → Allowed e w → Steps e w l (step e w)
step-IsSafe (connect a error client) w l g h = connect-IsSafe w l a error client g h
step-IsSafe (readable a error fd result) w l g h = readable-IsSafe w l a error fd result g h
step-IsSafe round w l g h = round-IsSafe w l g
step-IsSafe (work i) w l g h = hand-IsSafe w l i (get_elem? w.hands i) g h refl
