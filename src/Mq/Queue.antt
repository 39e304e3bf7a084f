-- ===== src/Mq/Queue.antt =====
-- The specification of the message queue: messages wait in order of arrival, the oldest first.
use footprints_ev.Base.{Option, none, some, List, [], ◌∷◌, ◌++◌}
use footprints_ev.Mq.{Ptr}

pub data Op : Type 0 where
  put : Ptr → Op
  get : Op

-- What each `get` returns, and the messages that wait at the end.
abbrev pub run : List Op → List Ptr → List (Option Ptr) × List Ptr
run [] q = ([], q)
run (put n ∷ ops) q = run ops (q ++ (n ∷ []))
run (get ∷ ops) [] = let (out, q') = run ops [] in (none ∷ out, q')
run (get ∷ ops) (x ∷ q) = let (out, q') = run ops q in (some x ∷ out, q')
