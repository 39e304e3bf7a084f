-- ===== src/Server/System/Observe.antt =====
-- What each step of the server did to a message, read off the systems before and after it.
use footprints_ev.Base.{◌≡◌, ap, Option, none, some, List, [], ◌∷◌, get_elem?, ◌==◌, if◌then◌else◌}
use footprints_ev.Pool.{Ptr}
use footprints_ev.Mq.{State}
use footprints_ev.Server.Receive.{takes}
use footprints_ev.Server.System.{
  System, Hand, idle, decoding, left, Event, connect, readable, round, work, step,
}
use footprints_ev.Server.System.Traffic.{
  Label, silent, arrives, is_accepted, is_refused, begins, ends,
}

-- the cells next to the sentinel: the newest message and the oldest one
abbrev pub newest : State → Ptr
newest s = s.heap.next s.list

abbrev pub oldest : State → Ptr
oldest s = s.heap.prev s.list

-- an idle worker that is at a buffer afterwards began its task
abbrev begun_by : Option Hand → Label
begun_by none = silent
begun_by (some idle) = silent
begun_by (some (decoding p)) = begins p
begun_by (some left) = silent

abbrev pub worked : Option Hand → Option Hand → Label
worked none after = silent
worked (some idle) after = begun_by after
worked (some (decoding p)) after = ends p
worked (some left) after = silent

-- A text that `read_func_cb` takes arrives as the newest message; a round offers the oldest one, which the thread pool
-- accepts if it has a free slot.
abbrev pub observe : Event → System → System → Label
observe (connect a error client) w u = silent
observe (readable a error fd result) w u =
    if takes error result then arrives (newest u.server.obd_mq) else silent
observe round w u =
    if oldest w.server.obd_mq == w.server.obd_mq.list
    then silent
    else if w.server.thread_pool.count == w.server.thread_pool.queue_size
    then is_refused (oldest w.server.obd_mq)
    else is_accepted (oldest w.server.obd_mq)
observe (work i) w u = worked (get_elem? w.hands i) (get_elem? u.hands i)

-- a run, as what was observed of its steps
abbrev pub trace : List Event → System → List Label
trace [] w = []
trace (e ∷ es) w = elim (step e w) [ none ↦ [] | some u ↦ observe e w u ∷ trace es u ]

pub trace-step :
    (e : Event) (es : List Event) (w u : System)
    → step e w ≡ some u
    → trace (e ∷ es) w ≡ observe e w u ∷ trace es u
trace-step e es w u did =
    ap (λ r. elim r as (λ _. List Label) [ none ↦ [] | some v ↦ observe e w v ∷ trace es v ]) did
