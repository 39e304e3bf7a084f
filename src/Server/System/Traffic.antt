-- ===== src/Server/System/Traffic.antt =====
-- The specification of the server: its messages, without buffers, memory, locks and connections.
use footprints_ev.Base.{◌≡◌, sym, ◌∙◌, ap, List, [], ◌∷◌, ◌++◌, append_assoc, append-nil}
use footprints_ev.Pool.{Ptr}
use footprints_ev.Server.System.{Hand}
use footprints_ev.Server.System.Safe.{Places, held_by}
use mathlib.Core.List.{reverse, reverse-cons, reverse-append}

-- `queued` is newest first, `waiting` oldest first; `lost` are refused by the thread pool.
pub record Traffic : Type 0 where
  pub queued : List Ptr
  pub waiting : List Ptr
  pub working : List Ptr
  pub lost : List Ptr

abbrev pub view : Places → List Hand → Traffic
view l hands = record {
  queued = l.queued;
  waiting = l.waiting;
  working = held_by hands;
  lost = l.lost;
}

-- what happens to a message
pub data Label : Type 0 where
  silent : Label
  arrives : Ptr → Label
  is_accepted : Ptr → Label
  is_refused : Ptr → Label
  begins : Ptr → Label
  ends : Ptr → Label

pub data Move (a : Traffic) : Label → Traffic → Type 0 where
  stay : {b : Traffic} → b ≡ a → Move a silent b
  arrive : {b : Traffic} (p : Ptr) → b ≡ record a { queued = p ∷ a.queued } → Move a (arrives p) b
  accept :
      {b : Traffic} (p : Ptr) (rest : List Ptr)
      → a.queued ≡ rest ++ (p ∷ [])
      → b ≡ record a { queued = rest; waiting = a.waiting ++ (p ∷ []) }
      → Move a (is_accepted p) b
  refuse :
      {b : Traffic} (p : Ptr) (rest : List Ptr)
      → a.queued ≡ rest ++ (p ∷ [])
      → b ≡ record a { queued = rest; lost = p ∷ a.lost }
      → Move a (is_refused p) b
  begin :
      {b : Traffic} (p : Ptr) (younger us vs : List Ptr)
      → a.waiting ≡ p ∷ younger
      → a.working ≡ us ++ vs
      → b ≡ record a { waiting = younger; working = us ++ (p ∷ vs) }
      → Move a (begins p) b
  end' :
      {b : Traffic} (p : Ptr) (us vs : List Ptr)
      → a.working ≡ us ++ (p ∷ vs)
      → b ≡ record a { working = us ++ vs }
      → Move a (ends p) b

pub data Moves : Traffic → List Label → Traffic → Type 0 where
  here : {a : Traffic} → Moves a [] a
  then_move :
      {a b c : Traffic} {l : Label} {ls : List Label}
      → Move a l b
      → Moves b ls c
      → Moves a (l ∷ ls) c

-- the messages of a trace: those that arrived, those offered to the thread pool, accepted by it, and begun
abbrev pub arrived : List Label → List Ptr
arrived [] = []
arrived (arrives p ∷ ls) = p ∷ arrived ls
arrived (silent ∷ ls) = arrived ls
arrived (is_accepted p ∷ ls) = arrived ls
arrived (is_refused p ∷ ls) = arrived ls
arrived (begins p ∷ ls) = arrived ls
arrived (ends p ∷ ls) = arrived ls

abbrev pub offered : List Label → List Ptr
offered [] = []
offered (is_accepted p ∷ ls) = p ∷ offered ls
offered (is_refused p ∷ ls) = p ∷ offered ls
offered (silent ∷ ls) = offered ls
offered (arrives p ∷ ls) = offered ls
offered (begins p ∷ ls) = offered ls
offered (ends p ∷ ls) = offered ls

abbrev pub accepted : List Label → List Ptr
accepted [] = []
accepted (is_accepted p ∷ ls) = p ∷ accepted ls
accepted (silent ∷ ls) = accepted ls
accepted (arrives p ∷ ls) = accepted ls
accepted (is_refused p ∷ ls) = accepted ls
accepted (begins p ∷ ls) = accepted ls
accepted (ends p ∷ ls) = accepted ls

abbrev pub begun : List Label → List Ptr
begun [] = []
begun (begins p ∷ ls) = p ∷ begun ls
begun (silent ∷ ls) = begun ls
begun (arrives p ∷ ls) = begun ls
begun (is_accepted p ∷ ls) = begun ls
begun (is_refused p ∷ ls) = begun ls
begun (ends p ∷ ls) = begun ls

-- Messages leave the queue in the order of their arrival, and tasks begin in the order in which they were accepted.
pub record InOrder (a : Traffic) (ls : List Label) (b : Traffic) : Type 0 where
  pub queue : reverse a.queued ++ arrived ls ≡ offered ls ++ reverse b.queued
  pub tasks : a.waiting ++ accepted ls ≡ begun ls ++ b.waiting

-- the queue when its oldest message leaves, and when another arrives
oldest :
    (qs rest more : List Ptr) (p : Ptr)
    → qs ≡ rest ++ (p ∷ [])
    → reverse qs ++ more ≡ p ∷ (reverse rest ++ more)
oldest qs rest more p e =
    ap (λ q. reverse q ++ more) e ∙ ap (λ q. q ++ more) (reverse-append rest (p ∷ []))

youngest : (qs more : List Ptr) (p : Ptr) → reverse (p ∷ qs) ++ more ≡ reverse qs ++ (p ∷ more)
youngest qs more p =
    ap (λ q. q ++ more) (reverse-cons p qs) ∙ append_assoc (reverse qs) (p ∷ []) more

pub Moves-InOrder : {a b : Traffic} {ls : List Label} → Moves a ls b → InOrder a ls b
Moves-InOrder {a} here = record {
  queue = append-nil (reverse a.queued);
  tasks = append-nil a.waiting;
}
Moves-InOrder (then_move (stay e) ms) =
    let h = Moves-InOrder ms in record { queue = rw (sym e) h.queue; tasks = rw (sym e) h.tasks }
Moves-InOrder {a} {ls = _ ∷ ls} (then_move (arrive p e) ms) =
    let h = Moves-InOrder ms in
    record {
      queue =
          sym (youngest a.queued (arrived ls) p)
          ∙ (ap (λ b. reverse b.queued ++ arrived ls) (sym e) ∙ h.queue);
      tasks = ap (λ b. b.waiting ++ accepted ls) (sym e) ∙ h.tasks;
    }
Moves-InOrder {a} {ls = _ ∷ ls} (then_move (accept p rest q e) ms) =
    let h = Moves-InOrder ms in
    record {
      queue =
          oldest a.queued rest (arrived ls) p q
          ∙ ap (λ r. p ∷ r) (ap (λ b. reverse b.queued ++ arrived ls) (sym e) ∙ h.queue);
      tasks =
          sym (append_assoc a.waiting (p ∷ []) (accepted ls))
          ∙ (ap (λ b. b.waiting ++ accepted ls) (sym e) ∙ h.tasks);
    }
Moves-InOrder {a} {ls = _ ∷ ls} (then_move (refuse p rest q e) ms) =
    let h = Moves-InOrder ms in
    record {
      queue =
          oldest a.queued rest (arrived ls) p q
          ∙ ap (λ r. p ∷ r) (ap (λ b. reverse b.queued ++ arrived ls) (sym e) ∙ h.queue);
      tasks = ap (λ b. b.waiting ++ accepted ls) (sym e) ∙ h.tasks;
    }
Moves-InOrder {a} {ls = _ ∷ ls} (then_move (begin p younger us vs q r e) ms) =
    let h = Moves-InOrder ms in
    record {
      queue = ap (λ b. reverse b.queued ++ arrived ls) (sym e) ∙ h.queue;
      tasks =
          ap (λ w. w ++ accepted ls) q
          ∙ ap (λ r. p ∷ r) (ap (λ b. b.waiting ++ accepted ls) (sym e) ∙ h.tasks);
    }
Moves-InOrder {a} {ls = _ ∷ ls} (then_move (end' p us vs q e) ms) =
    let h = Moves-InOrder ms in
    record {
      queue = ap (λ b. reverse b.queued ++ arrived ls) (sym e) ∙ h.queue;
      tasks = ap (λ b. b.waiting ++ accepted ls) (sym e) ∙ h.tasks;
    }
