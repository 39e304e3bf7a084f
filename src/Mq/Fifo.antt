-- ===== src/Mq/Fifo.antt =====
-- Any sequence of `mq_put` and `mq_get` against the first-in first-out queue of `Queue`.
use mathlib.Core.List.{reverse, reverse-append, reverse-cons}
use footprints_ev.Base.{◌≡◌, ◌≢◌, refl, Bool, true, Option, List, [], ◌∷◌, ◌++◌}
use footprints_ev.Mq.{Ptr, State, Cmd, pure, ◌>>=◌, ◌>>◌, mq_put, mq_get}
use footprints_ev.Base.Distinct.{NotIn, NotIn-append}
use footprints_ev.Mq.IsQueue.{IsQueue, Returns, returns, bind}
use footprints_ev.Mq.Put.{mq_put-cons}
use footprints_ev.Mq.Get.{mq_get-nil, mq_get-snoc}
use footprints_ev.Mq.Queue
use footprints_ev.Mq.Queue.{Op, put, get}

-- The calls in order, with what each `mq_get` returns.
unfoldable pub run : List Op → Cmd (List (Option Ptr))
run [] = pure []
run (put n ∷ ops) = mq_put n >> run ops
run (get ∷ ops) = do current ← mq_get; rest ← run ops; pure (current ∷ rest)

-- The calls that a client may make: it puts live cells, and none that is already queued.
abbrev pub Admissible : Ptr → (Ptr → Bool) → List Op → List Ptr → Type 0
Admissible list live [] q = Unit {0}
Admissible list live (put n ∷ ops) q =
    ((live n ≡ true) × (n ≢ list) × NotIn n q) × Admissible list live ops (q ++ (n ∷ []))
Admissible list live (get ∷ ops) [] = Admissible list live ops []
Admissible list live (get ∷ ops) (x ∷ q) = Admissible list live ops q

pub NotIn-reverse : (p : Ptr) (xs : List Ptr) → NotIn p xs → NotIn p (reverse xs)
NotIn-reverse p [] o = tt
NotIn-reverse p (x ∷ xs) o =
    rw reverse-cons (NotIn-append p (reverse xs) (x ∷ []) (NotIn-reverse p xs o.1) (o.0, tt))

-- A client that puts only live cells which are not queued sees exactly the first-in first-out queue:
-- every `mq_get` returns what the specification returns, no call faults or blocks, and the list holds
-- the messages that the specification still holds.
pub run-Queue :
    (ops : List Op) (q : List Ptr) (s : State)
    → IsQueue s (reverse q)
    → Admissible s.list s.heap.live ops q
    → Returns
        (λ out t. (out ≡ (Queue.run ops q).0) × IsQueue t (reverse (Queue.run ops q).1))
        (run ops s)
unfolding run
run-Queue [] q s is can = returns (refl, is)
run-Queue (put n ∷ ops) q s is can =
    bind (mq_put-cons n s (reverse q) is can.0.0 can.0.1 (NotIn-reverse n q can.0.2))
      λ _ t (is', same).
        run-Queue ops (q ++ (n ∷ [])) t (rw (reverse-append q (n ∷ [])) is')
          (rw (same.same_list, same.same_live) can.1)
run-Queue (get ∷ ops) [] s is can =
    rw (mq_get-nil s is) (bind (run-Queue ops [] s is can) λ out t (e, is'). returns (rw e, is'))
run-Queue (get ∷ ops) (x ∷ q) s is can =
    bind (mq_get-snoc x s (reverse q) (rw reverse-cons at is)) λ r t (e, is', nx, px, same).
      bind (run-Queue ops q t is' (rw (same.same_list, same.same_live) can))
        λ out u (e', is''). returns (rw (e, e'), is'')
