-- ===== src/Mq/Threads/Section.antt =====
-- A call of `mq_put` or `mq_get`, once it has the mutex, ends with the answer of the first-in first-out queue.
use mathlib.Core.List.{reverse, reverse-append, reverse-cons}
use footprints_ev.Base.{
  ◌≡◌, refl, sym, ◌∙◌, ap, subst, Bool, true, false, Option, none, some, List, [], ◌∷◌, ◌++◌,
}
use footprints_ev.Mq.{Ptr, State, Run, ok, fault, blocked, Cmd, pure, and_then, lock, unlock}
use footprints_ev.Mq.IsQueue.{IsQueue, result}
use footprints_ev.Mq.Put.{mq_put-cons}
use footprints_ev.Mq.Get.{mq_get-nil, mq_get-snoc}
use footprints_ev.Mq.Fifo.{NotIn-reverse}
use footprints_ev.Mq.Queue.{Op, put, get}
use footprints_ev.Mq.Threads.{Prog, put_body, get_body, body, whole, MayCall, serve}
use footprints_ev.Mq.Threads.Calls.{locked_call, put_body-mq_put, get_body-mq_get}

abbrev pub with_lock : Bool → State → State
with_lock b s = record s { locked = b }

-- The program ends from here with an answer, and its unlock leaves these messages queued, the oldest first.
abbrev pub Finishes : Prog → State → Option Ptr → List Ptr → Type 0
Finishes p s r q = (t : State) × (whole p s ≡ ok r t) × IsQueue (with_lock false t) (reverse q)

abbrev unlocks : Run (Option Ptr) → Run (Option Ptr)
unlocks x = and_then x λ r. λ s. and_then (unlock s) λ _. ok r

ended :
    (x : Run (Option Ptr)) (r : Option Ptr) (s : State)
    → unlocks x ≡ ok r s
    → (t : State) × (x ≡ ok r t) × (s ≡ with_lock false t)
unfolding unlock
ended (ok a t) r s e = (t, cc, cc)
ended fault r s e = absurd (cc)
ended blocked r s e = absurd (cc)

locked_call-lock :
    (m : Cmd (Option Ptr)) (s : State)
    → s.locked ≡ false
    → locked_call m s ≡ unlocks (m (with_lock true s))
unfolding lock
locked_call-lock m s free = rw free refl

-- a call that returns finishes
call-Finishes :
    (p : Prog) (s t : State) (r : Option Ptr) (q : List Ptr)
    → s.locked ≡ false
    → locked_call (whole p) s ≡ ok r t
    → IsQueue t (reverse q)
    → Finishes p (with_lock true s) r q
call-Finishes p s t r q free run is =
    let (u, did, same) =
      ended (whole p (with_lock true s)) r t (sym (locked_call-lock (whole p) s free) ∙ run) in
    (u, did, subst (λ t. IsQueue t (reverse q)) same is)

pub body-Finishes :
    (op : Op) (q : List Ptr) (s : State)
    → IsQueue s (reverse q)
    → MayCall op q s
    → Finishes (body op) (with_lock true s) (serve op q).0 (serve op q).1
body-Finishes (put n) q s is may =
    let (_, t, run, (is', _)) =
      result (mq_put-cons n s (reverse q) is may.0 may.1 (NotIn-reverse n q may.2)) in
    call-Finishes (put_body n) s t none (q ++ (n ∷ [])) is.unlocked
      (put_body-mq_put n s ∙ ap (λ r. and_then r λ _. pure none) run)
      (rw (reverse-append q (n ∷ [])) is')
body-Finishes get [] s is may =
    call-Finishes get_body s s none [] is.unlocked (get_body-mq_get s ∙ mq_get-nil s is) is
body-Finishes get (x ∷ q) s is may =
    let (r, t, run, (answer, is', _, _, _)) =
      result (mq_get-snoc x s (reverse q) (rw reverse-cons at is)) in
    call-Finishes get_body s t (some x) q is.unlocked
      (get_body-mq_get s ∙ (run ∙ ap (λ r. ok r t) answer)) is'
