-- ===== src/Server/Tasks.antt =====
-- main-ev.c: `thread_func_cb` and `OBD_decode_thread`.
use footprints_ev.Base.{ℕ, Bool, true, false, Option, none, some, List, if◌then◌else◌, update}
use footprints_ev.Mq
use footprints_ev.Obd
use footprints_ev.Obd.{Obd}
use footprints_ev.Pool.{Ptr}
use footprints_ev.ThreadPool
use footprints_ev.ThreadPool.{ThreadPool}
use footprints_ev.Server.{Server, Run, ok, fault, blocked, endless, Cmd, pure, ◌>>=◌, ◌>>◌}
use footprints_ev.Server.Messages.{on_mq, get_obd, obd_release}

-- the function that `thread_func_cb` gives to the pool, as a pointer
abbrev pub obd_decode_thread : ℕ
obd_decode_thread = 1

abbrev pub from_add :
    Server → ThreadPool.Outcome (ThreadPool.Status × ThreadPool) → Run ThreadPool.Status
from_add s (ThreadPool.returned (status, pool)) = ok status (record s { thread_pool = pool })
from_add s ThreadPool.blocked = blocked

unfoldable pub add_task : ThreadPool.Calls → Ptr → Cmd ThreadPool.Status
add_task calls p s = from_add s (ThreadPool.add calls s.thread_pool (some obd_decode_thread) p)

-- One round of `thread_func_cb`: true where it leaves its loop. The status of the pool is dropped.
abbrev pub hand_over : ThreadPool.Calls → Option Ptr → Cmd Bool
hand_over calls none = pure false
hand_over calls (some p) = do status ← add_task calls p; pure false

abbrev pub leaves : Cmd Bool
leaves s = if s.mq_flag then on_mq Mq.mq_is_empty s else ok false s

unfoldable pub dispatch : ThreadPool.Calls → Cmd Bool
dispatch calls = do
  stop' ← leaves
  if stop' then pure true else do current ← on_mq Mq.mq_get; hand_over calls current

abbrev pub from_filter : Server → Ptr → Obd.Run (Bool × Obd) → Run (Unit {0})
from_filter s p (Obd.finished (done, o)) = ok tt (record s { obds = update s.obds p o })
from_filter s p Obd.fault = fault
from_filter s p Obd.out_of_fuel = endless

abbrev pub shown : Option (List (ℕ × ℕ)) → Cmd (List (ℕ × ℕ))
shown none = λ _. fault
shown (some out) = pure out

-- `OBD_decode_thread`, with what `OBD_decode` prints
unfoldable pub decode_thread : ℕ → Ptr → Cmd (List (ℕ × ℕ))
decode_thread fuel p = do
  o ← get_obd p
  (λ s. from_filter s p (Obd.filter_escape fuel o))
  o ← get_obd p
  out ← shown (Obd.decode o)
  obd_release p
  pure out
