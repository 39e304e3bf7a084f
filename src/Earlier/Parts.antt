-- ===== src/Earlier/Parts.antt =====
-- OBD_server.h: a server put together from parts. The functions that start and stop the parts are not in the
-- repository, or return nothing to rely on: whether a start reports failure is a parameter.
use footprints_ev.Base.{
  ◌≡◌, refl, Bool, true, false, List, [], ◌∷◌, map, if◌then◌else◌, Bool-cases, inl, inr,
}

pub data Part : Type 0 where
  mq mysqlpool redis obd_mempool data_mempool thread_pool : Part

pub data Act : Type 0 where
  started : Part → Act
  released : Part → Act

-- the result, and what was done to the parts, in order
abbrev pub Result : Type 0
Result = Bool × List Act

-- `if(part_init(...)) return FALSE;` and what follows
abbrev pub start_part : (Part → Bool) → Part → Result → Result
start_part fails p (result, acts) = if fails p then (false, []) else (result, started p ∷ acts)

-- `OBD_server_init`: for NULL or not, and with the parts that fail to start
unfoldable pub server_init : Bool → (Part → Bool) → Result
server_init is_null fails =
    if is_null
    then (false, [])
    else start_part fails mq (
        start_part fails mysqlpool (
          start_part fails redis (
            start_part fails obd_mempool
              (start_part fails data_mempool (start_part fails thread_pool (true, []))))))

-- `OBD_server_release`
unfoldable pub server_release : List Act
server_release =
    released thread_pool
    ∷ released data_mempool
    ∷ released obd_mempool
    ∷ released redis
    ∷ released mysqlpool
    ∷ released mq
    ∷ []

-- the parts in the order in which they start
abbrev pub order : List Part
order = mq ∷ mysqlpool ∷ redis ∷ obd_mempool ∷ data_mempool ∷ thread_pool ∷ []

-- those in front of the first that fails
unfoldable pub before_failure : (Part → Bool) → List Part → List Part
before_failure fails [] = []
before_failure fails (p ∷ ps) = if fails p then [] else p ∷ before_failure fails ps

abbrev pub none_fails : (Part → Bool) → List Part → Bool
none_fails fails [] = true
none_fails fails (p ∷ ps) = if fails p then false else none_fails fails ps

abbrev start_all : (Part → Bool) → List Part → Result
start_all fails [] = (true, [])
start_all fails (p ∷ ps) = start_part fails p (start_all fails ps)

start_all-stops :
    (fails : Part → Bool) (ps : List Part)
    → start_all fails ps ≡ (none_fails fails ps, map started (before_failure fails ps))
unfolding before_failure
start_all-stops fails [] = refl
start_all-stops fails (p ∷ ps) = elim (Bool-cases (fails p)) [
  | inl bad ↦ rw bad refl
  | inr good ↦ rw (good, start_all-stops fails ps) refl
]

abbrev pub undo : List Act → List Act → List Act
undo [] done = done
undo (started p ∷ acts) done = undo acts (released p ∷ done)
undo (released p ∷ acts) done = undo acts done

-- `OBD_server_init` of a server starts the parts in order up to the first that fails, and returns TRUE exactly where
-- none does. What was started before a failure stays started: only `OBD_server_release` undoes it, in reverse order
-- and for all six parts, as after a start without failure.
pub server_init-stops :
    (fails : Part → Bool)
    → (server_init false fails ≡ (none_fails fails order, map started (before_failure fails order)))
      × (server_init true fails ≡ (false, []))
      × (undo (server_init false (λ p. false)).1 [] ≡ server_release)
unfolding server_init server_release
server_init-stops fails = (start_all-stops fails order, refl, refl)
