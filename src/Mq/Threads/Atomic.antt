-- ===== src/Mq/Threads/Atomic.antt =====
-- Calls of `mq_put` and `mq_get` in any interleaving of their accesses take effect one after the other.
use mathlib.Core.List.{reverse}
use footprints_ev.Base.{
  ℕ, ◌≡◌, ◌≢◌, ◌⊎◌, sym, ◌∙◌, ap, subst, true, false, Option, List, ◌∷◌, arith, ◌==◌, update,
  update_self, update-ne, Bool-cases, inl, inr, ==_iff,
}
use footprints_ev.Mq.{Ptr, State, ok, Cmd, and_then, lock, unlock}
use footprints_ev.Mq.IsQueue.{IsQueue}
use footprints_ev.Mq.Queue.{Op}
use footprints_ev.Mq.Threads.{
  Prog, done, load, store, body, whole, Thread, outside, inside, World, moves_to, MayCall, serve,
  Serial, next, Step, enter, loads, stores, leave, Reach, here, later,
}
use footprints_ev.Mq.Threads.Steady.{Steady, body-Steady}
use footprints_ev.Mq.Threads.Section.{Finishes, with_lock, body-Finishes}

abbrev pub IsOutside : Thread → Type 0
IsOutside th = (ops : List Op) × (th ≡ outside ops)

-- The mutex is free and no thread is in a call.
pub record Free (q0 : List Ptr) (w : World) : Type 0 where
  pub queue : List Ptr
  pub serial : Serial q0 w.history queue
  pub is : IsQueue w.state (reverse queue)
  pub all_outside : (j : ℕ) → IsOutside (w.threads j)

-- One thread has the mutex, and its call ends with the answer of the queue.
pub record Held (q0 : List Ptr) (w : World) : Type 0 where
  pub holder : ℕ
  pub calls : List Op
  pub op : Op
  pub prog : Prog
  pub queue : List Ptr
  pub at : w.threads holder ≡ inside calls op prog
  pub others : (j : ℕ) → j ≢ holder → IsOutside (w.threads j)
  pub serial : Serial q0 w.history queue
  pub locked : w.state.locked ≡ true
  pub steady : Steady prog
  pub finishes : Finishes prog w.state (serve op queue).0 (serve op queue).1

abbrev pub Inv : List Ptr → World → Type 0
Inv q0 w = Free q0 w ⊎ Held q0 w

-- the thread in a call is the one that has the mutex
pub holder-is :
    {q0 : List Ptr} (w : World) (g : Held q0 w) (i : ℕ) (ops : List Op) (op : Op) (p : Prog)
    → w.threads i ≡ inside ops op p
    → i ≡ g.holder
holder-is w g i ops op p e = elim (Bool-cases (i == g.holder)) [
  | inl same ↦ (==_iff i g.holder).0 same
  | inr other ↦ let (ops', out) = g.others i (λ s. ground arith) in absurd (cc)
]

elsewhere :
    (w : World) (i j : ℕ) (th : Thread)
    → j ≢ i
    → IsOutside (w.threads j)
    → IsOutside (update w.threads i th j)
elsewhere w i j th ne (ops, out) = (ops, update-ne w.threads i th j ne ∙ out)

took-lock : (s t : State) → lock s ≡ ok tt t → (s.locked ≡ false) × (t ≡ with_lock true s)
unfolding lock
took-lock s t e = elim (Bool-cases s.locked) [
  | inl held ↦ absurd (ground arith)
  | inr free ↦ (free, ground arith)
]

-- a thread takes the mutex
enter-Inv :
    {q0 : List Ptr} (w : World) (i : ℕ) (op : Op) (ops : List Op) (s : State)
    → Inv q0 w
    → ((q : List Ptr) → Serial q0 w.history q → MayCall op q w.state)
    → lock w.state ≡ ok tt s
    → Inv q0 (moves_to w i (inside ops op (body op)) s)
enter-Inv w i op ops s (inl f) may took =
    let (_, now) = took-lock w.state s took in
    let ends = body-Finishes op f.queue w.state f.is (may f.queue f.serial) in
    inr (record {
      holder = i;
      calls = ops;
      op = op;
      prog = body op;
      queue = f.queue;
      at = update_self w.threads i (inside ops op (body op));
      others = λ j ne. elsewhere w i j (inside ops op (body op)) ne (f.all_outside j);
      serial = f.serial;
      locked = ap (λ t. t.locked) now;
      steady = body-Steady op;
      finishes =
          subst (λ t. Finishes (body op) t (serve op f.queue).0 (serve op f.queue).1) (sym now)
            ends;
    })
enter-Inv w i op ops s (inr g) may took =
    let (free, _) = took-lock w.state s took in absurd (cc (g.locked, free))

-- the holder makes an access
access-Inv :
    {q0 : List Ptr} (w : World) (g : Held q0 w) (i : ℕ) (ops : List Op) (op : Op) (p p' : Prog)
    (s : State)
    → w.threads i ≡ inside ops op p
    → (Steady p → (s.locked ≡ w.state.locked) × Steady p')
    → whole p w.state ≡ whole p' s
    → Inv q0 (moves_to w i (inside ops op p') s)
access-Inv w g i ops op p p' s e keeps same =
    let here = holder-is w g i ops op p e in
    let same_thread : inside ops op p ≡ inside g.calls g.op g.prog = cc (e, g.at, here) in
    let same_op : g.op ≡ op = cc (same_thread) in
    let same_prog : g.prog ≡ p = cc (same_thread) in
    let (locked, steady) = keeps (subst Steady same_prog g.steady) in
    let (t, run, is) =
      subst (λ o. Finishes p w.state (serve o g.queue).0 (serve o g.queue).1) same_op
        (subst (λ r. Finishes r w.state (serve g.op g.queue).0 (serve g.op g.queue).1) same_prog
          g.finishes) in
    inr (record {
      holder = i;
      calls = ops;
      op = op;
      prog = p';
      queue = g.queue;
      at = update_self w.threads i (inside ops op p');
      others = λ j ne. elsewhere w i j (inside ops op p') ne (g.others j (λ k. ne (k ∙ sym here)));
      serial = g.serial;
      locked = locked ∙ g.locked;
      steady = steady;
      finishes = (t, sym same ∙ run, is);
    })

-- the holder gives the mutex back
leave-Inv :
    {q0 : List Ptr} (w : World) (g : Held q0 w) (i : ℕ) (ops : List Op) (op : Op) (r : Option Ptr)
    (s : State)
    → w.threads i ≡ inside ops op (done r)
    → unlock w.state ≡ ok tt s
    → Free q0 (record (moves_to w i (outside ops) s) { history = (op, r) ∷ w.history })
unfolding whole unlock
leave-Inv {q0} w g i ops op r s e gave =
    let here = holder-is w g i ops op (done r) e in
    let same_thread : inside ops op (done r) ≡ inside g.calls g.op g.prog = cc (e, g.at, here) in
    let same_op : g.op ≡ op = cc (same_thread) in
    let same_prog : g.prog ≡ done r = cc (same_thread) in
    let (t, run, is) =
      subst (λ o. Finishes (done r) w.state (serve o g.queue).0 (serve o g.queue).1) same_op
        (subst (λ r. Finishes r w.state (serve g.op g.queue).0 (serve g.op g.queue).1) same_prog
          g.finishes) in
    let answer : (serve op g.queue).0 ≡ r = cc (run) in
    let at_end : with_lock false t ≡ s = cc (run, gave) in
    record {
      queue = (serve op g.queue).1;
      serial =
          subst (λ a. Serial q0 ((op, a) ∷ w.history) (serve op g.queue).1) answer
            (next g.serial op);
      is = subst (λ u. IsQueue u (reverse (serve op g.queue).1)) at_end is;
      all_outside = λ j. elim (Bool-cases (j == i)) [
        | inl same ↦ (
          ops,
          ap (update w.threads i (outside ops)) ((==_iff j i).0 same)
              ∙ update_self w.threads i (outside ops),
        )
        | inr other ↦
            elsewhere w i j (outside ops) (λ k. ground arith) (g.others j (λ k. ground arith))
      ];
    }

no_call :
    {q0 : List Ptr} (w : World) (f : Free q0 w) (i : ℕ) (ops : List Op) (op : Op) (p : Prog)
    → ¬ (w.threads i ≡ inside ops op p)
no_call w f i ops op p e = let (ops', out) = f.all_outside i in absurd (cc (e, out))

whole-load :
    (m : Cmd Ptr) (k : Ptr → Prog) (a : Ptr) (s t : State)
    → m s ≡ ok a t
    → whole (load m k) s ≡ whole (k a) t
unfolding whole
whole-load m k a s t e = ap (λ r. and_then r λ a. whole (k a)) e

whole-store :
    (m : Cmd (Unit {0})) (p : Prog) (s t : State) → m s ≡ ok tt t → whole (store m p) s ≡ whole p t
unfolding whole
whole-store m p s t e = ap (λ r. and_then r λ _. whole p) e

pub Step-Inv : {q0 : List Ptr} {w u : World} → Step q0 w u → Inv q0 w → Inv q0 u
Step-Inv {w} (enter i {op} {ops} {s} at may took) v = enter-Inv w i op ops s v may took
Step-Inv {w} (loads i {op} {ops} {m} {k} {a} {s} at did) (inl f) =
    absurd (no_call w f i ops op (load m k) at)
Step-Inv {w} (loads i {op} {ops} {m} {k} {a} {s} at did) (inr g) =
    access-Inv w g i ops op (load m k) (k a) s at (λ keeps. (keeps.0 w.state s a did, keeps.1 a))
      (whole-load m k a w.state s did)
Step-Inv {w} (stores i {op} {ops} {m} {p} {s} at did) (inl f) =
    absurd (no_call w f i ops op (store m p) at)
Step-Inv {w} (stores i {op} {ops} {m} {p} {s} at did) (inr g) =
    access-Inv w g i ops op (store m p) p s at (λ keeps. (keeps.0 w.state s tt did, keeps.1))
      (whole-store m p w.state s did)
Step-Inv {w} (leave i {op} {ops} {r} {s} at gave) (inl f) =
    absurd (no_call w f i ops op (done r) at)
Step-Inv {w} (leave i {op} {ops} {r} {s} at gave) (inr g) = inl (leave-Inv w g i ops op r s at gave)

-- In every interleaving of threads that call `mq_put` and `mq_get` on a queue that holds `q0`, access by access, the calls
-- that have returned answer what they do one after the other in the first-in first-out queue, in the order of their
-- unlocks. While no thread is in a call the list holds the messages that wait then; otherwise exactly one thread is in a
-- call, it has the mutex, and without the others its call ends, with the answer of the queue and the list as the queue has
-- it. A client puts live cells that do not wait in the queue.
pub Reach-Inv : {q0 : List Ptr} {v w : World} → Free q0 v → Reach q0 v w → Inv q0 w
Reach-Inv f here = inl f
Reach-Inv f (later r step) = Step-Inv step (Reach-Inv f r)
