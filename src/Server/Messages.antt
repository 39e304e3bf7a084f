-- ===== src/Server/Messages.antt =====
-- OBD_struct.h: `OBD_init` and `OBD_release`; main-ev.c: `read_func_cb`.
use footprints_ev.Base.{
  ℕ, ◌%◌, Bool, Option, none, some, List, [], ◌∷◌, ◌++◌, ltb, ◌==◌, if◌then◌else◌, update, set,
  replicate, drop, length,
}
use footprints_ev.CString.{strlen}
use footprints_ev.Mq
use footprints_ev.Obd
use footprints_ev.Obd.{Obd, image, buf_size}
use footprints_ev.Pool.{Ptr, null}
use footprints_ev.Server.{
  Server, send_ok, Run, ok, fault, blocked, Cmd, pure, ◌>>=◌, ◌>>◌, emit, malloc_obd, free_obd,
}
use footprints_ev.Server.Connections.{free_libev}

-- calls of the queue
abbrev pub from_mq {ℓ} : {A : Type ℓ} → Server → Mq.Run A → Run A
from_mq s (Mq.ok a q) = ok a (record s { obd_mq = q })
from_mq s Mq.fault = fault
from_mq s Mq.blocked = blocked

abbrev pub on_mq : {A : Type 0} → Mq.Cmd A → Cmd A
on_mq m s = from_mq s (m s.obd_mq)

abbrev pub set_obd : Ptr → Obd → Cmd (Unit {0})
set_obd p o s = ok tt (record s { obds = update s.obds p o })

abbrev pub get_obd : Ptr → Cmd Obd
get_obd p s = ok (s.obds p) s

-- `OBD_init`; where `Malloc` returns NULL it returns without a value, which its caller then uses.
unfoldable pub obd_init : Option Ptr → Cmd Ptr
obd_init fresh = do
  p ← malloc_obd fresh
  if p == null then (λ _. fault) else do
    on_mq (Mq.list_init p)
    o ← get_obd p
    set_obd p (record o {
      data_length = 0;
      data_bytes = replicate buf_size 0;
      hex = replicate buf_size 0;
    })
    pure p

-- `OBD_release`
unfoldable pub obd_release : Ptr → Cmd (Unit {0})
obd_release p = if p == null then pure tt else do
  on_mq (Mq.list_init p)
  o ← get_obd p
  set_obd p (record o { data_bytes = replicate buf_size 0 })
  free_obd p

-- What `recv` of at most `buf_size` bytes returns: an error, or bytes, none when the client is gone.
pub data Received : Type 0 where
  failed : Received
  bytes : List ℕ → Received

-- the bytes that `recv` writes, and the NUL at `data[read]`; at 256 that is the member behind `data`
unfoldable pub receive_into : List ℕ → Obd → Obd
receive_into bs o =
    let o' : Obd = record o { data_bytes = bs ++ drop (length bs) o.data_bytes } in
    if ltb (length bs) buf_size
    then record o' { data_bytes = set o'.data_bytes (length bs) 0 }
    else record o' { data_length = 0 }

abbrev pub measured : Obd → Option ℕ → Cmd Obd
measured o none = λ _. fault
measured o (some n) = pure (record o { data_length = n % 256 })

abbrev pub identified : Obd → Option ℕ → Cmd Obd
identified o none = λ _. fault
identified o (some id) = pure (record o { id = id })

-- from the received bytes on
unfoldable pub read_message : ℕ → Ptr → List ℕ → Cmd (Unit {0})
read_message fd p bs = do
  o ← get_obd p
  o ← measured (receive_into bs o) (strlen (image (receive_into bs o)))
  set_obd p o
  if o.data_length == 0 then obd_release p else do
    o ← identified o (Obd.get_cmd o)
    set_obd p o
    emit (send_ok fd)
    on_mq (Mq.list_init p)
    on_mq (Mq.mq_put p)

abbrev pub received : ℕ → Ptr → Received → Cmd (Unit {0})
received fd p failed = obd_release p
received fd p (bytes []) = do obd_release p; free_libev fd
received fd p (bytes (b ∷ bs)) = read_message fd p (b ∷ bs)

-- `read_func_cb` on the watcher of `fd`
unfoldable pub read_func_cb : Option Ptr → Bool → ℕ → Received → Cmd (Unit {0})
read_func_cb fresh error fd result = do
  p ← obd_init fresh
  if error then obd_release p else received fd p result
