-- ===== src/Mq/Threads/Progress.antt =====
-- No thread that has the mutex of the queue gets stuck, and none waits for ever.
use footprints_ev.Base.{
  ◌≡◌, ◌≢◌, ◌⊎◌, arith, Bool-cases, ◌==◌, ==_iff, update-ne, refl, sym, ◌∙◌, ap, true, false,
  Option, List, ◌∷◌, inl, inr, ℕ, update_self,
}
use footprints_ev.Mq.{Ptr, State, Run, ok, fault, blocked, Cmd, and_then, lock, unlock}
use footprints_ev.Mq.Queue.{Op}
use footprints_ev.Mq.Threads.{
  Prog, Thread, done, load, store, body, whole, inside, outside, World, moves_to, MayCall, Serial,
  Step, enter, loads, stores, leave, Reach, here, later,
}
use footprints_ev.Mq.Threads.Atomic.{Free, Held, Inv, IsOutside, holder-is, Reach-Inv, Step-Inv}

returned :
    {A B : Type 0} (r : Run A) (k : A → Cmd B) (b : B) (t : State)
    → and_then r k ≡ ok b t
    → (a : A) × (s : State) × (r ≡ ok a s)
returned (ok a s) k b t e = (a, s, refl)
returned fault k b t e = absurd (cc)
returned blocked k b t e = absurd (cc)

-- thread `i` is past its call, and no other has moved
record Past (q0 : List Ptr) (v w : World) (i : ℕ) (ops : List Op) : Type 0 where
  after : World
  reach : Reach q0 v after
  at : after.threads i ≡ outside ops
  others : (j : ℕ) → j ≢ i → after.threads j ≡ w.threads j

moved :
    {q0 : List Ptr} (v w : World) (i : ℕ) (ops : List Op) (th : Thread) (s : State)
    → Past q0 v (moves_to w i th s) i ops
    → Past q0 v w i ops
moved v w i ops th s e = record {
  after = e.after;
  reach = e.reach;
  at = e.at;
  others = λ j ne. e.others j ne ∙ update-ne w.threads i th j ne;
}

-- the thread in a call gets to its end
runs_on :
    {q0 : List Ptr} {v : World} (p : Prog) (w : World) (i : ℕ) (ops : List Op) (op : Op)
    (r : Option Ptr) (t : State)
    → Reach q0 v w
    → w.threads i ≡ inside ops op p
    → whole p w.state ≡ ok r t
    → Past q0 v w i ops
unfolding whole unlock
runs_on (done r') w i ops op r t reach at run = record {
  after = record (moves_to w i (outside ops) (record w.state { locked = false })) {
    history = (op, r') ∷ w.history;
  };
  reach = later reach (leave i at refl);
  at = update_self w.threads i (outside ops);
  others = λ j ne. update-ne w.threads i (outside ops) j ne;
}
runs_on {v} (load m k) w i ops op r t reach at run =
    let (a, s, did) = returned (m w.state) (λ a. whole (k a)) r t run in
    let th = inside ops op (k a) in
    moved v w i ops th s (
      runs_on (k a) (moves_to w i th s) i ops op r t (later reach (loads i at did))
        (update_self w.threads i th) (sym (ap (λ x. and_then x λ a. whole (k a)) did) ∙ run))
runs_on {v} (store m p) w i ops op r t reach at run =
    let (_, s, did) = returned (m w.state) (λ _. whole p) r t run in
    let th = inside ops op p in
    moved v w i ops th s (
      runs_on p (moves_to w i th s) i ops op r t (later reach (stores i at did))
        (update_self w.threads i th) (sym (ap (λ x. and_then x λ _. whole p) did) ∙ run))

Reach-trans : {q0 : List Ptr} {v w u : World} → Reach q0 v w → Reach q0 w u → Reach q0 v u
Reach-trans r here = r
Reach-trans r (later r' step) = later (Reach-trans r r') step

lock-free : (s : State) → s.locked ≡ false → lock s ≡ ok tt (record s { locked = true })
unfolding lock
lock-free s free = rw free refl

-- the thread in a call ends it, and the others stay
holder-Past : {q0 : List Ptr} (w : World) (g : Held q0 w) → Past q0 w w g.holder g.calls
holder-Past w g = runs_on g.prog w g.holder g.calls g.op _ g.finishes.0 here g.at g.finishes.1

Inv-Reach : {q0 : List Ptr} {v w : World} → Inv q0 v → Reach q0 v w → Inv q0 w
Inv-Reach v here = v
Inv-Reach v (later r step) = Step-Inv step (Inv-Reach v r)

none_inside :
    {q0 : List Ptr} (w : World) → ((j : ℕ) → IsOutside (w.threads j)) → Inv q0 w → Free q0 w
none_inside w out (inl f) = f
none_inside w out (inr g) = let (ops, o) = out g.holder in absurd (cc (o, g.at))

-- when the thread in a call is past it, the mutex is free
Past-Free :
    {q0 : List Ptr} (w : World) (g : Held q0 w) (past : Past q0 w w g.holder g.calls)
    → Free q0 past.after
Past-Free w g past =
    none_inside past.after
      (λ j. elim (Bool-cases (j == g.holder)) [
        | inl same ↦ (g.calls, ap past.after.threads ((==_iff j g.holder).0 same) ∙ past.at)
        | inr other ↦
            let ne : j ≢ g.holder = λ e. ground arith in
            let (ops, out) = g.others j ne in (ops, past.others j ne ∙ out)
      ])
      (Inv-Reach (inr g) past.reach)

-- the mutex becomes free for a thread that waits for it
waits-Free :
    {q0 : List Ptr} (w : World) (i : ℕ) (ops : List Op)
    → Inv q0 w
    → w.threads i ≡ outside ops
    → (u : World) × Reach q0 w u × Free q0 u × (u.threads i ≡ outside ops)
waits-Free w i ops (inl f) at = (w, here, f, at)
waits-Free w i ops (inr g) at =
    let past = holder-Past w g in
    (
      past.after,
      past.reach,
      Past-Free w g past,
      past.others i (λ e. absurd (cc (at, g.at, e))) ∙ at,
    )

-- thread `i` has returned from its call, and the mutex is free
abbrev pub Served : List Ptr → World → ℕ → List Op → Type 0
Served q0 w i ops = (u : World) × Reach q0 w u × (u.threads i ≡ outside ops) × Free q0 u

inside-Served :
    {q0 : List Ptr} (w : World) (i : ℕ) (ops : List Op) (op : Op) (p : Prog)
    → Inv q0 w
    → w.threads i ≡ inside ops op p
    → Served q0 w i ops
inside-Served w i ops op p (inl f) at = let (ops', out) = f.all_outside i in absurd (cc (at, out))
inside-Served {q0} w i ops op p (inr g) at =
    let past = holder-Past w g in
    let same = holder-is w g i ops op p at in
    let calls : g.calls ≡ ops =
      let e : inside ops op p ≡ inside g.calls g.op g.prog = cc (at, g.at, same) in cc (e) in
    (
      past.after,
      past.reach,
      ap past.after.threads same ∙ (past.at ∙ ap outside calls),
      Past-Free w g past,
    )

-- Thread `i` is about to make a call, and may make it in each world from there on where it is still about to.
abbrev pub Waits : List Ptr → World → ℕ → Op → List Op → Type 0
Waits q0 w i op ops =
    (w.threads i ≡ outside (op ∷ ops))
    × ((u : World) (q : List Ptr)
        → Reach q0 w u
        → u.threads i ≡ outside (op ∷ ops)
        → Serial q0 u.history q
        → MayCall op q u.state)

-- From every world that is reached, a thread that is in a call of `mq_put` or `mq_get`, or is about to make one that it
-- may make for as long as it has not begun it, can return from it, with the mutex free: no thread ends in an access
-- outside the list or in a lock that is not given back.
pub call-Served :
    {q0 : List Ptr} {v w : World} (i : ℕ) (op : Op) (ops : List Op)
    → Free q0 v
    → Reach q0 v w
    → ((p : Prog) × (w.threads i ≡ inside ops op p)) ⊎ Waits q0 w i op ops
    → Served q0 w i ops
call-Served {w} i op ops f reach (inl (p, at)) = inside-Served w i ops op p (Reach-Inv f reach) at
call-Served {q0} {w} i op ops f reach (inr (at, may)) =
    let (u, to, g, now) = waits-Free w i (op ∷ ops) (Reach-Inv f reach) at in
    let s = record u.state { locked = true } in
    let th = inside ops op (body op) in
    let entered : Step q0 u (moves_to u i th s) =
      enter i now (λ q serial. may u q to now serial) (lock-free u.state g.is.unlocked) in
    let (u', to', done', g') =
      inside-Served (moves_to u i th s) i ops op (body op) (Step-Inv entered (inl g))
        (update_self u.threads i th) in
    (u', Reach-trans (later to entered) to', done', g')
