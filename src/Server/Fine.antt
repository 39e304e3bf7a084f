-- ===== src/Server/Fine.antt =====
-- main-ev.c in finer steps: between two steps the event loop may hold a buffer that `OBD_init` gave it, and the
-- dispatcher a message that `mq_get` gave it. A step makes at most one access to what threads share: one call of
-- `Malloc` or `Free` on the buffers, of `mq_put` or `mq_get`, or one critical section of the thread pool.
pub mod Split
pub mod Reading
pub mod Carrying
pub mod Runs
mod Tests
use footprints_ev.Base.{
  ℕ, Bool, true, false, Option, none, some, List, [], ◌∷◌, ◌++◌, if◌then◌else◌,
}
use footprints_ev.Mq
use footprints_ev.Pool.{Ptr}
use footprints_ev.Server
use footprints_ev.Server.{Server, Cmd, pure, ◌>>=◌, ◌>>◌}
use footprints_ev.Server.Connections.{accept_func_cb}
use footprints_ev.Server.Messages.{Received, on_mq, obd_init, obd_release, received}
use footprints_ev.Server.System.{System, Hand, step, work}
use footprints_ev.Server.Tasks.{leaves, hand_over}
use footprints_ev.ThreadPool.Enqueue.{all_ok}

pub record Fine : Type 0 where
  pub system : System
  pub reading : Option Ptr
  pub carrying : Option Ptr

-- `accept_func_cb`, `read_func_cb` in two steps, a round of the dispatcher in two steps, and a step of a worker
pub data Act : Type 0 where
  connects : Ptr → Bool → Option ℕ → Act
  begins_read : Ptr → Act
  ends_read : Bool → ℕ → Received → Act
  polls : Act
  offers : Act
  works : ℕ → Act

-- `read_func_cb` behind `OBD_init`
unfoldable pub finish_read : Bool → ℕ → Received → Ptr → Cmd (Unit {0})
finish_read error fd result p = if error then obd_release p else received fd p result

-- a round of the dispatcher up to `mq_get`: whether it leaves its loop, and what it took
unfoldable pub poll : Cmd (Bool × Option Ptr)
poll = do
  stop' ← leaves
  if stop' then pure (true, none) else do current ← on_mq Mq.mq_get; pure (false, current)

-- `none`: the step does not return
abbrev pub with_server : Fine → Server → Fine
with_server f s = record f { system = record f.system { server = s } }

abbrev pub back : {A : Type 0} → (A → Server → Fine) → Server.Run A → Option Fine
back k (Server.ok a s) = some (k a s)
back k Server.fault = none
back k Server.blocked = none
back k Server.endless = none

-- The event loop is at one callback at a time, and the dispatcher at one message.
abbrev pub if_none : Option Ptr → Fine → Option Fine → Option Fine
if_none none f next = next
if_none (some p) f next = some f

abbrev pub if_some : Option Ptr → Fine → (Ptr → Option Fine) → Option Fine
if_some none f next = some f
if_some (some p) f next = next p

abbrev pub with_system : Fine → Option System → Option Fine
with_system f none = none
with_system f (some w) = some (record f { system = w })

unfoldable pub fine_step : Act → Fine → Option Fine
fine_step (connects a error client) f =
    if_none f.reading f
      (back (λ u s. with_server f s) (accept_func_cb (some a) error client f.system.server))
fine_step (begins_read a) f = if_none f.reading f (
    back (λ p s. record (with_server f s) { reading = some p }) (obd_init (some a) f.system.server))
fine_step (ends_read error fd result) f = if_some f.reading f λ p.
    back (λ u s. record (with_server f s) { reading = none })
      (finish_read error fd result p f.system.server)
fine_step polls f =
    if_none f.carrying f
      (back (λ r s. record (with_server f s) { carrying = r.1 }) (poll f.system.server))
fine_step offers f = if_some f.carrying f λ p.
    back (λ u s. record (with_server f s) { carrying = none })
      (hand_over all_ok (some p) f.system.server)
fine_step (works i) f = with_system f (step (work i) f.system)

abbrev pub fine_run : List Act → Fine → Option Fine
fine_run [] f = some f
fine_run (a ∷ as') f = elim (fine_step a f) [ none ↦ none | some g ↦ fine_run as' g ]
