-- ===== src/Mq/IsQueue.antt =====
-- What a well-formed queue is: newest message first, the sentinel at both ends.
use footprints_ev.Base.{
  ◌%◌, ◌^◌, ◌≡◌, ◌≢◌, refl, Bool, true, false, List, [], ◌∷◌, arith, length, update, update_self,
  update-ne,
}
use footprints_ev.Mq.{Ptr, State, Run, ok, Cmd, and_then, with_heap, list_init, mq_init}
use footprints_ev.Mq.Chain.{NextChain, PrevChain, NotIn, Distinct}

abbrev pub AllLive : (Ptr → Bool) → List Ptr → Type 0
AllLive live [] = Unit {0}
AllLive live (x ∷ xs) = (live x ≡ true) × AllLive live xs

-- `xs` are the cells of the messages from the newest to the oldest.
pub record IsQueue (s : State) (xs : List Ptr) : Type 0 where
  pub next_chain : NextChain s.heap.next s.list xs s.list
  pub prev_chain : PrevChain s.heap.prev s.list xs s.list
  pub apart : NotIn s.list xs
  pub distinct : Distinct xs
  pub head_live : s.heap.live s.list ≡ true
  pub live : AllLive s.heap.live xs
  pub counted : s.size ≡ length xs % 2 ^ 32
  pub unlocked : s.locked ≡ false

-- The sentinel and the live cells stay, and only the cells of `xs` and the sentinel are written.
pub record Touches (xs : List Ptr) (s t : State) : Type 0 where
  pub same_list : t.list ≡ s.list
  pub same_live : t.heap.live ≡ s.heap.live
  pub next_frame : (p : Ptr) → p ≢ s.list → NotIn p xs → t.heap.next p ≡ s.heap.next p
  pub prev_frame : (p : Ptr) → p ≢ s.list → NotIn p xs → t.heap.prev p ≡ s.heap.prev p

-- A run that returns, with its postcondition.
pub data Returns {ℓ κ} {A : Type ℓ} (P : A → State → Type κ) : Run A → Type (ℓ ⊔ κ) where
  returns : {a : A} {s : State} → P a s → Returns P (ok a s)

pub bind :
    {A B : Type 0} {P : A → State → Type 0} {Q : B → State → Type 0} {r : Run A} {k : A → Cmd B}
    → Returns P r
    → ((a : A) (s : State) → P a s → Returns Q (k a s))
    → Returns Q (and_then r k)
bind (returns p) next = next _ _ p

-- the result of a run that returns
pub result :
    {A : Type 0} {P : A → State → Type 0} {r : Run A}
    → Returns P r
    → (a : A) × (q : State) × (r ≡ ok a q) × P a q
result (returns p) = (_, _, refl, p)

-- `list_init` makes a cell its own neighbour.
pub list_init_lem :
    (p : Ptr) (s : State)
    → s.heap.live p ≡ true
    → list_init p s
      ≡ ok tt (
          with_heap s
            (record s.heap { next = update s.heap.next p p; prev = update s.heap.prev p p }))
unfolding list_init
list_init_lem p s l = ground arith

mq_init-run :
    (s : State)
    → s.heap.live s.list ≡ true
    → mq_init s
      ≡ ok tt (record s {
        heap = record s.heap {
          next = update s.heap.next s.list s.list;
          prev = update s.heap.prev s.list s.list;
        };
        size = 0;
      })
unfolding mq_init
mq_init-run s l = ground arith

-- `mq_init` leaves an empty queue, whatever the sentinel held, if the mutex is free.
pub mq_init-IsQueue :
    (s : State)
    → s.heap.live s.list ≡ true
    → s.locked ≡ false
    → Returns (λ _ t. IsQueue t [] × Touches [] s t) (mq_init s)
mq_init-IsQueue s l u = rw (mq_init-run s l) (
    returns (
      record {
        next_chain = update_self s.heap.next s.list s.list;
        prev_chain = update_self s.heap.prev s.list s.list;
        apart = tt;
        distinct = tt;
        head_live = l;
        live = tt;
        counted = refl;
        unlocked = u;
      },
      record {
        same_list = refl;
        same_live = refl;
        next_frame = λ p ne out. update-ne s.heap.next s.list s.list p ne;
        prev_frame = λ p ne out. update-ne s.heap.prev s.list s.list p ne;
      },
    ))
