-- ===== src/Mq/Threads/Calls.antt =====
-- The programs of `Threads` against `mq_put` and `mq_get`.
use footprints_ev.Base.{◌≡◌, Option, none, arith}
use footprints_ev.Mq.{Ptr, State, Cmd, pure, ◌>>=◌, ◌>>◌, lock, unlock, mq_put, mq_get}
use footprints_ev.Mq.Threads.{put_body, get_body, whole}

-- the call: lock, program, unlock, return
abbrev pub locked_call : Cmd (Option Ptr) → Cmd (Option Ptr)
locked_call m = do lock; r ← m; unlock; pure r

pub put_body-mq_put :
    (n : Ptr) (s : State) → locked_call (whole (put_body n)) s ≡ (mq_put n >> pure none) s
unfolding whole put_body mq_put lock unlock
put_body-mq_put n s = ground arith

pub get_body-mq_get : (s : State) → locked_call (whole get_body) s ≡ mq_get s
unfolding whole get_body mq_get lock unlock
get_body-mq_get s = ground arith
