-- ===== src/Server/System.antt =====
-- main-ev.c as a whole: the event loop, the dispatcher thread and the workers of the thread pool take
-- steps in any order. A step is a whole callback, round or task.
pub mod Safe
pub mod Traffic
pub mod Observe
pub mod Callbacks
pub mod Rounds
pub mod Work
pub mod Steps
pub mod Runs
pub mod Drain
mod Tests
use footprints_ev.Base.{
  ℕ, Bool, Option, none, some, List, [], ◌∷◌, ◌++◌, get_elem?, set, ◌==◌, if◌then◌else◌,
}
use footprints_ev.Pool.{Ptr}
use footprints_ev.Server
use footprints_ev.Server.{Server}
use footprints_ev.Server.Connections.{accept_func_cb}
use footprints_ev.Server.Messages.{Received, read_func_cb}
use footprints_ev.Server.Tasks.{dispatch, decode_thread, obd_decode_thread}
use footprints_ev.ThreadPool.{ThreadPool, Round, wait, leave, take, fault, thread_round}
use footprints_ev.ThreadPool.Enqueue.{all_ok}

-- A worker: in the loop of `threadpool_thread`, in the task for a buffer, or past the loop.
pub data Hand : Type 0 where
  idle : Hand
  decoding : Ptr → Hand
  left : Hand

pub record System : Type 0 where
  pub server : Server
  pub hands : List Hand

-- What happens next: `accept_func_cb` or `read_func_cb` with what its calls return, a round of the
-- dispatcher, or a step of the worker with a number. An address is what `malloc` would hand out.
pub data Event : Type 0 where
  connect : Ptr → Bool → Option ℕ → Event
  readable : Ptr → Bool → ℕ → Received → Event
  round : Event
  work : ℕ → Event

-- `none`: the step does not return
abbrev pub returned_to : {A : Type 0} → List Hand → Server.Run A → Option System
returned_to hands (Server.ok a s) = some (record { server = s; hands = hands })
returned_to hands Server.fault = none
returned_to hands Server.blocked = none
returned_to hands Server.endless = none

abbrev pub with_pool : System → ThreadPool → Server
with_pool w pool = record w.server { thread_pool = pool }

-- `none` also where the task is not one for `OBD_decode_thread`
abbrev pub after_round : System → ℕ → Round → Option System
after_round w i wait = some w
after_round w i (leave pool) =
    some (record { server = with_pool w pool; hands = set w.hands i left })
after_round w i (take t pool) =
    if t.function == obd_decode_thread
    then some (record { server = with_pool w pool; hands = set w.hands i (decoding t.argument) })
    else none
after_round w i fault = none

abbrev pub work_on : System → ℕ → Option Hand → Option System
work_on w i none = some w
work_on w i (some idle) = after_round w i (thread_round w.server.thread_pool)
work_on w i (some (decoding p)) = returned_to (set w.hands i idle) (decode_thread 128 p w.server)
work_on w i (some left) = some w

unfoldable pub step : Event → System → Option System
step (connect a error client) w =
    returned_to w.hands (accept_func_cb (some a) error client w.server)
step (readable a error fd result) w =
    returned_to w.hands (read_func_cb (some a) error fd result w.server)
step round w = returned_to w.hands (dispatch all_ok w.server)
step (work i) w = work_on w i (get_elem? w.hands i)

abbrev pub run_from : List Event → Option System → Option System
run_from [] w = w
run_from (e ∷ es) none = none
run_from (e ∷ es) (some w) = run_from es (step e w)

abbrev pub run : List Event → System → Option System
run es w = run_from es (some w)
