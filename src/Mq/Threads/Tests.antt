-- ===== src/Mq/Threads/Tests.antt =====
-- Two threads on an empty queue: one is in `mq_put` of a message, the other waits to get it.
use footprints_ev.Base.{
  ℕ, ◌≡◌, refl, Bool, true, false, ◌&&◌, List, [], ◌∷◌, arith, leb, ◌==◌, if◌then◌else◌, inl, inr,
  ◌≢◌, ◌⊎◌, ◌∙◌, sym, ap, subst, update, update_self, update-ne, Bool-cases, ==_iff,
}
use footprints_ev.Base.Distinct.{NotIn}
use footprints_ev.Mq.{lock, Ptr, State}
use footprints_ev.Mq.Queue.{Op, put, get}
use footprints_ev.Mq.Threads.{
  Step, loads, stores, leave, done, load, store, MayCall, Serial, start, Thread, inside, outside,
  World, moves_to, Reach, here, later, enter, body,
}
use footprints_ev.Mq.Threads.Atomic.{Free, Inv, Reach-Inv}
use footprints_ev.Mq.Threads.Progress.{Served, call-Served}

-- the sentinel 1 and the messages 2 and 3
abbrev empty : Bool → State
empty locked = record {
  heap = record { live = λ p. leb 1 p && leb p 3; next = λ p. p; prev = λ p. p };
  list = 1;
  size = 0;
  locked = locked;
}

abbrev threads : ℕ → Thread
threads i =
    if i == 0 then outside (put 2 ∷ []) else if i == 1 then outside (get ∷ []) else outside []

abbrev begin : World
begin = record { state = empty false; threads = threads; history = [] }

abbrev entered : World
entered = moves_to begin 0 (inside [] (put 2) (body (put 2))) (empty true)

all_outside : (j : ℕ) → (ops : List Op) × (threads j ≡ outside ops)
all_outside j =
    elim (j == 0)
      as (λ b.
        (ops : List Op) × ((if b
            then outside (put 2 ∷ [])
            else if j == 1
            then outside (get ∷ [])
            else outside [])
          ≡ outside ops)) [
            | true ↦ (put 2 ∷ [], refl)
            | false ↦
                elim (j == 1)
                  as (λ b.
                    (ops : List Op) × ((if b then outside (get ∷ []) else outside [])
                      ≡ outside ops)) [ true ↦ (get ∷ [], refl) | false ↦ ([], refl) ]
          ]

begin-Free : Free [] begin
begin-Free = record {
  queue = [];
  serial = start;
  is = record {
    next_chain = refl;
    prev_chain = refl;
    apart = tt;
    distinct = tt;
    head_live = refl;
    live = tt;
    counted = refl;
    unlocked = refl;
  };
  all_outside = all_outside;
}

none_waits : {q : List Ptr} → Serial [] [] q → NotIn 2 q
none_waits start = tt

begin-entered : Reach [] begin entered
unfolding lock
begin-entered = later here (
    enter 0 {op = put 2} {ops = []} {s = empty true} refl
      (λ q serial. (refl, (λ e. omega arith), none_waits serial)) refl)

Reach-Inv_example : Inv [] entered
Reach-Inv_example = Reach-Inv begin-Free begin-entered

-- thread 0 is about to put, and no other thread makes a call
abbrev alone : World
alone = record {
  state = empty false;
  threads = λ i. if i == 0 then outside (put 2 ∷ []) else outside [];
  history = [];
}

alone-Free : Free [] alone
unfolding begin-Free
alone-Free = record {
  queue = [];
  serial = start;
  is = begin-Free.is;
  all_outside = λ j.
      elim (j == 0)
        as (λ b.
          (ops : List Op) × ((if b then outside (put 2 ∷ []) else outside []) ≡ outside ops)) [
            | true ↦ (put 2 ∷ [], refl)
            | false ↦ ([], refl)
          ];
}

-- the calls behind the one that a thread is at
abbrev rest_of : Thread → List Op
rest_of (outside []) = []
rest_of (outside (op ∷ ops)) = ops
rest_of (inside ops op p) = ops

record IsAlone (u : World) : Type 0 where
  others : (j : ℕ) → j ≢ 0 → u.threads j ≡ outside []
  last : rest_of (u.threads 0) ≡ []
  same : (u ≡ alone) ⊎ (u.threads 0 ≢ outside (put 2 ∷ []))

first : (u : World) (i : ℕ) (t : Thread) → IsAlone u → u.threads i ≡ t → t ≢ outside [] → i ≡ 0
first u i t a at busy = elim (Bool-cases (i == 0)) [
  | inl y ↦ (==_iff i 0).0 y
  | inr n ↦ absurd (busy (sym at ∙ a.others i (λ z. ground arith)))
]

first-last : (u : World) (i : ℕ) (t : Thread) → IsAlone u → u.threads i ≡ t → i ≡ 0 → rest_of t ≡ []
first-last u i t a at e = ap rest_of (sym at) ∙ (ap (λ k. rest_of (u.threads k)) e ∙ a.last)

moved-IsAlone :
    (u v : World) (i : ℕ) (th : Thread)
    → IsAlone u
    → i ≡ 0
    → v.threads ≡ update u.threads i th
    → rest_of th ≡ []
    → th ≢ outside (put 2 ∷ [])
    → IsAlone v
moved-IsAlone u v i th a e moves r gone =
    let here : v.threads 0 ≡ th =
      subst (λ k. v.threads k ≡ th) e (ap (λ f. f i) moves ∙ update_self u.threads i th) in
    record {
      others = λ j ne.
          ap (λ f. f j) moves ∙ (update-ne u.threads i th j (λ z. ne (z ∙ e)) ∙ a.others j ne);
      last = ap rest_of here ∙ r;
      same = inr (λ z. gone (sym here ∙ z));
    }

Step-IsAlone : {u v : World} → Step [] u v → IsAlone u → IsAlone v
Step-IsAlone {u} (enter i {op} {ops} {s} at may lk) a =
    let e = first u i (outside (op ∷ ops)) a at (λ z. cc) in
    moved-IsAlone u _ i (inside ops op (body op)) a e refl
      (first-last u i (outside (op ∷ ops)) a at e) (λ z. cc)
Step-IsAlone {u} (loads i {op} {ops} {m} {k} {a = b} {s} at run) a =
    let e = first u i (inside ops op (load m k)) a at (λ z. cc) in
    moved-IsAlone u _ i (inside ops op (k b)) a e refl
      (first-last u i (inside ops op (load m k)) a at e) (λ z. cc)
Step-IsAlone {u} (stores i {op} {ops} {m} {p} {s} at run) a =
    let e = first u i (inside ops op (store m p)) a at (λ z. cc) in
    moved-IsAlone u _ i (inside ops op p) a e refl
      (first-last u i (inside ops op (store m p)) a at e) (λ z. cc)
Step-IsAlone {u} (leave i {op} {ops} {r} {s} at run) a =
    let e = first u i (inside ops op (done r)) a at (λ z. cc) in
    let nil : ops ≡ [] = first-last u i (inside ops op (done r)) a at e in
    moved-IsAlone u _ i (outside ops) a e refl (ap (λ o. rest_of (outside o)) nil) (λ z. cc)

alone-IsAlone : IsAlone alone
alone-IsAlone = record { others = λ j ne. ground arith; last = refl; same = inl refl }

Reach-IsAlone : {u : World} → Reach [] alone u → IsAlone u
Reach-IsAlone here = alone-IsAlone
Reach-IsAlone (later r st) = Step-IsAlone st (Reach-IsAlone r)

alone-MayCall :
    (u : World) (q : List Ptr)
    → Reach [] alone u
    → u.threads 0 ≡ outside (put 2 ∷ [])
    → Serial [] u.history q
    → MayCall (put 2) q u.state
alone-MayCall u q r at serial = elim (Reach-IsAlone r).same [
  | inl e ↦
      subst (λ v. MayCall (put 2) q v.state) (sym e)
        (refl, (λ z. omega arith), none_waits (subst (λ v. Serial [] v.history q) e serial))
  | inr gone ↦ absurd (gone at)
]

call-Served_example : Served [] alone 0 []
call-Served_example = call-Served 0 (put 2) [] alone-Free here (inr (refl, alone-MayCall))
