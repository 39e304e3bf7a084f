-- ===== src/Server/Fine/Split.antt =====
-- The two steps of a callback and of a round, one after the other, are the callback and the round.
use footprints_ev.Base.{ℕ, ◌≡◌, refl, Bool, true, false, Option, none, if◌then◌else◌}
use footprints_ev.Pool.{Ptr}
use footprints_ev.Mq
use footprints_ev.Server.{Server, Run, ok, fault, blocked, endless, Cmd, pure, and_then, ◌>>=◌}
use footprints_ev.Server.Messages.{Received, on_mq, obd_init, read_func_cb}
use footprints_ev.Server.Tasks.{leaves, hand_over, dispatch}
use footprints_ev.ThreadPool.{Calls}
use footprints_ev.Server.Fine.{finish_read, poll}

-- a round of the dispatcher behind `mq_get`
abbrev pub offer_polled : Calls → Bool × Option Ptr → Cmd Bool
offer_polled calls (stop', current) = if stop' then pure true else hand_over calls current

taking :
    (calls : Calls) (r : Run (Option Ptr))
    → and_then r (hand_over calls) ≡ and_then (and_then r λ c. ok (false, c)) (offer_polled calls)
taking calls (ok c s) = refl
taking calls fault = refl
taking calls blocked = refl
taking calls endless = refl

leaving :
    (calls : Calls) (r : Run Bool)
    → and_then r (λ stop'. if stop' then pure true else on_mq Mq.mq_get >>= hand_over calls)
      ≡ and_then
          (and_then r
            λ stop'. if stop' then ok (true, none) else on_mq Mq.mq_get >>= λ c. ok (false, c))
          (offer_polled calls)
leaving calls (ok true s) = refl
leaving calls (ok false s) = taking calls (on_mq Mq.mq_get s)
leaving calls fault = refl
leaving calls blocked = refl
leaving calls endless = refl

-- `read_func_cb` is `OBD_init` and what follows, and a round of the dispatcher is the poll and what follows, from every
-- state of the server and whatever their calls return.
steps-whole :
    (fresh : Option Ptr) (error : Bool) (fd : ℕ) (result : Received) (calls : Calls) (s : Server)
    → (read_func_cb fresh error fd result s ≡ (obd_init fresh >>= finish_read error fd result) s)
      × (dispatch calls s ≡ (poll >>= offer_polled calls) s)
unfolding read_func_cb finish_read dispatch poll
steps-whole fresh error fd result calls s = (refl, leaving calls (leaves s))
