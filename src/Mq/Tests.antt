-- ===== src/Mq/Tests.antt =====
-- Runs of the queue, and its theorems at concrete queues.
use footprints_ev.Base.{
  ◌≡◌, refl, true, false, ◌&&◌, Option, none, some, List, [], ◌∷◌, arith, leb, ◌==◌, if◌then◌else◌,
}
use footprints_ev.Mq.{Ptr, State, Run, ok, blocked, mq_put, mq_get, mq_is_empty, list_del, ◌>>=◌}
use footprints_ev.Mq.Chain.{NextChain, PrevChain}
use footprints_ev.Mq.IsQueue.{IsQueue, Returns}
use footprints_ev.Mq.Empty.{mq_is_empty-blocks}
use footprints_ev.Mq.Delete.{list_del-chains}
use footprints_ev.Mq.Queue.{Op, put, get}
use footprints_ev.Mq.Fifo.{run, run-Queue}

-- the sentinel 1 and the messages 2, 3 and 4, each its own neighbour
abbrev empty : State
empty = record {
  heap = record { live = λ p. leb 1 p && leb p 4; next = λ p. p; prev = λ p. p };
  list = 1;
  size = 0;
  locked = false;
}

-- 2 was put before 3
abbrev two : State
two = record {
  heap = record {
    live = λ p. leb 1 p && leb p 4;
    next = λ p. if p == 1 then 3 else if p == 3 then 2 else if p == 2 then 1 else p;
    prev = λ p. if p == 1 then 2 else if p == 3 then 1 else if p == 2 then 3 else p;
  };
  list = 1;
  size = 2;
  locked = false;
}

abbrev calls : List Op
calls = put 2 ∷ put 3 ∷ get ∷ put 2 ∷ get ∷ get ∷ get ∷ []

out : {A : Type 0} → Run A → Option A
out (ok a s) = some a
out _ = none

run-calls : out (run calls empty) ≡ some (some 2 ∷ some 3 ∷ some 2 ∷ none ∷ [])
unfolding out run mq_put mq_get
run-calls = refl

-- the thread that asks whether the queue is empty stops at its next `mq_get`
ask_then_get : (mq_is_empty >>= λ b. mq_get) two ≡ blocked
unfolding mq_is_empty mq_get
ask_then_get = refl

empty-IsQueue : IsQueue empty []
empty-IsQueue = record {
  next_chain = refl;
  prev_chain = refl;
  apart = tt;
  distinct = tt;
  head_live = refl;
  live = tt;
  counted = refl;
  unlocked = refl;
}

two-IsQueue : IsQueue two (3 ∷ 2 ∷ [])
two-IsQueue = record {
  next_chain = (refl, (refl, refl));
  prev_chain = (refl, (refl, refl));
  apart = omega arith;
  distinct = omega arith;
  head_live = refl;
  live = (refl, (refl, tt));
  counted = refl;
  unlocked = refl;
}

run-Queue_example :
    Returns (λ r t. (r ≡ some 2 ∷ some 3 ∷ some 2 ∷ none ∷ []) × IsQueue t []) (run calls empty)
run-Queue_example = run-Queue calls [] empty empty-IsQueue (
  (refl, (λ e. omega arith), tt),
  ((refl, (λ e. omega arith), omega arith), ((refl, (λ e. omega arith), omega arith), tt)),
)

mq_is_empty-blocks_example :
    Returns
      (λ b t.
        (b ≡ false)
        × (t ≡ record two { locked = true })
        × ((n : Ptr) → mq_put n t ≡ blocked)
        × (mq_get t ≡ blocked)
        × (mq_is_empty t ≡ blocked))
      (mq_is_empty two)
mq_is_empty-blocks_example = mq_is_empty-blocks two (3 ∷ 2 ∷ []) two-IsQueue

-- 3 is in front of 2, and is gone from the forward chain
list_del-chains_example :
    Returns
      (λ _ t.
        NextChain t.heap.next 1 [] 1
        × PrevChain t.heap.prev 1 (3 ∷ []) 1
        × (t.heap.next 2 ≡ 2)
        × (t.heap.prev 2 ≡ 2))
      (list_del 1 2 two)
list_del-chains_example = list_del-chains two (3 ∷ []) 2 [] two-IsQueue
