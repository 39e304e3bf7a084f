-- ===== src/Mq.antt =====
-- The message queue of OBD_mq.h: an intrusive circular list of `list_t` under `mq_mutex`.
-- A heap of `list_t` cells is a map for each field and the set of live cells; an access to a cell
-- that is not live (NULL among them) is a fault. A thread that locks a mutex which is held waits for
-- ever in a run of its own: `blocked`.
pub mod Chain
pub mod IsQueue
pub mod Put
pub mod Get
pub mod Empty
pub mod Delete
pub mod Queue
pub mod Fifo
pub mod Threads
mod Tests
use footprints_ev.Base.{
  ℕ, ◌+◌, ◌-◌, ◌%◌, ◌^◌, Bool, true, false, Option, none, some, ◌==◌, if◌then◌else◌, update,
}

abbrev pub Ptr : Type 0
Ptr = ℕ

-- `list_t` cells, by field.
pub record Heap : Type 0 where
  pub live : Ptr → Bool
  pub next : Ptr → Ptr
  pub prev : Ptr → Ptr

-- `mq_t`, with the address of its sentinel `list`, the heap, and whether `mq_mutex` is held.
pub record State : Type 0 where
  pub heap : Heap
  pub list : Ptr
  pub size : ℕ
  pub locked : Bool

pub data Run {ℓ} (A : Type ℓ) : Type ℓ where
  ok : A → State → Run A
  fault : Run A
  blocked : Run A

abbrev pub Cmd : Type 0 → Type 0
Cmd A = State → Run A

abbrev pub pure : {A : Type 0} → A → Cmd A
pure = ok

module _ {A B : Type 0} where
  abbrev pub and_then : Run A → (A → Cmd B) → Run B
  and_then (ok a s) k = k a s
  and_then fault k = fault
  and_then blocked k = blocked

  infixl 5 ◌>>=◌ ◌>>◌
  abbrev pub ◌>>=◌ : Cmd A → (A → Cmd B) → Cmd B
  m >>= k = λ s. and_then (m s) k

  abbrev pub ◌>>◌ : Cmd A → Cmd B → Cmd B
  m >> n = m >>= λ _. n

abbrev pub with_heap : State → Heap → State
with_heap s h = record s { heap = h }

unfoldable pub get_next : Ptr → Cmd Ptr
get_next p s = if s.heap.live p then ok (s.heap.next p) s else fault

unfoldable pub get_prev : Ptr → Cmd Ptr
get_prev p s = if s.heap.live p then ok (s.heap.prev p) s else fault

unfoldable pub set_next : Ptr → Ptr → Cmd (Unit {0})
set_next p v s =
    if s.heap.live p
    then ok tt (with_heap s (record s.heap { next = update s.heap.next p v }))
    else fault

unfoldable pub set_prev : Ptr → Ptr → Cmd (Unit {0})
set_prev p v s =
    if s.heap.live p
    then ok tt (with_heap s (record s.heap { prev = update s.heap.prev p v }))
    else fault

-- `pthread_mutex_lock` and `pthread_mutex_unlock` of `mq_mutex`
unfoldable pub lock : Cmd (Unit {0})
lock s = if s.locked then blocked else ok tt (record s { locked = true })

unfoldable pub unlock : Cmd (Unit {0})
unlock s = ok tt (record s { locked = false })

abbrev pub mq_list : Cmd Ptr
mq_list s = ok s.list s

abbrev pub set_size : (ℕ → ℕ) → Cmd (Unit {0})
set_size f s = ok tt (record s { size = f s.size })

unfoldable pub list_init : Ptr → Cmd (Unit {0})
unfolding set_next set_prev
list_init list = do set_next list list; set_prev list list

-- `return` stands before the unlock, so `mq_mutex` stays held.
unfoldable pub mq_is_empty : Cmd Bool
unfolding lock get_prev
mq_is_empty = do lock; head ← mq_list; last ← get_prev head; pure (last == head)

unfoldable pub list_del : Ptr → Ptr → Cmd (Unit {0})
unfolding get_next get_prev set_next set_prev list_init
list_del head node = do
  after ← get_next node
  before ← get_prev node
  set_prev after before
  after ← get_next node
  set_next head after
  list_init node

unfoldable pub list_del_back : Ptr → Cmd (Option Ptr)
unfolding get_prev set_next set_prev list_init
list_del_back head = do
  current ← get_prev head
  if current == head then pure none else do
    before ← get_prev current
    set_next before head
    before ← get_prev current
    set_prev head before
    list_init current
    pure (some current)

-- `mq->size--` in 32 bits, where `mq_get` has a message
abbrev pub dec32 : ℕ → ℕ
dec32 n = (n + (2 ^ 32 - 1)) % 2 ^ 32

abbrev pub inc32 : ℕ → ℕ
inc32 n = (n + 1) % 2 ^ 32

abbrev pub count_down : Option Ptr → Cmd (Unit {0})
count_down none = pure tt
count_down (some current) = set_size dec32

unfoldable pub mq_get : Cmd (Option Ptr)
unfolding lock unlock list_del_back
mq_get = do
  lock
  head ← mq_list
  current ← list_del_back head
  count_down current
  unlock
  pure current

unfoldable pub list_add_front : Ptr → Ptr → Cmd (Unit {0})
unfolding get_next set_next set_prev
list_add_front head current = do
  first ← get_next head
  set_next current first
  first ← get_next head
  set_prev first current
  set_next head current
  set_prev current head

unfoldable pub mq_put : Ptr → Cmd (Unit {0})
unfolding lock unlock list_add_front
mq_put current = do lock; head ← mq_list; list_add_front head current; set_size inc32; unlock

unfoldable pub mq_init : Cmd (Unit {0})
unfolding list_init
mq_init = do head ← mq_list; list_init head; set_size (λ _. 0)
