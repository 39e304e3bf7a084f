-- ===== src/ThreadPool/Ring.antt =====
-- The ring of a pool as a list: the pending tasks, the oldest first.
use footprints_ev.Base.{
  ℕ, zero, suc, ◌+◌, ◌-◌, ◌≤◌, ◌<◌, ◌≡◌, ◌≢◌, refl, sym, ◌∙◌, ap, ap₂, Bool, List, [], ◌∷◌, ◌++◌,
  arith, ltb, if◌then◌else◌, length, length-set, get_or, set, get_or-set_self, get_or-set_ne,
}
use footprints_ev.ThreadPool.{Task, ThreadPool, next_index, enqueue}

-- stands for a slot out of range, which `IsRing` excludes
abbrev pub no_task : Task
no_task = record { function = 0; argument = 0 }

-- the `n` tasks from index `h` on, in the order in which the worker's index moves
abbrev pub tasks_from : List Task → ℕ → ℕ → ℕ → List Task
tasks_from queue size h zero = []
tasks_from queue size h (suc n) =
    get_or queue h no_task ∷ tasks_from queue size (next_index size h) n

abbrev pub pending : ThreadPool → List Task
pending pool = tasks_from pool.queue pool.queue_size pool.head pool.count

-- the index `n` steps after an index, for `n` up to the size
abbrev pub wrap : ℕ → ℕ → ℕ
wrap size x = if ltb x size then x else x - size

pub record IsRing (pool : ThreadPool) : Type 0 where
  pub storage : length pool.queue ≡ pool.queue_size
  pub head_in : pool.head < pool.queue_size
  pub count_in : pool.count ≤ pool.queue_size
  pub tail_at : pool.tail ≡ wrap pool.queue_size (pool.head + pool.count)

pub length-tasks_from : (queue : List Task) (size h n : ℕ) → length (tasks_from queue size h n) ≡ n
length-tasks_from queue size h zero = refl
length-tasks_from queue size h (suc n) = ap suc (length-tasks_from queue size (next_index size h) n)

tail-ne : (size h n : ℕ) → h < size → suc n < size → wrap size (h + suc n) ≢ h
tail-ne size h n hs ns = ground arith

wrap-next :
    (size h n : ℕ)
    → h < size
    → suc n < size
    → wrap size (h + suc n) ≡ wrap size (next_index size h + n)
wrap-next size h n hs ns = ground arith

next-lt : (size h : ℕ) → h < size → next_index size h < size
next-lt size h hs = ground arith

-- A write just behind the pending tasks extends them by that task.
pub tasks_from-set :
    (queue : List Task) (size h n t : ℕ) (v : Task)
    → length queue ≡ size
    → h < size
    → n < size
    → t ≡ wrap size (h + n)
    → tasks_from (set queue t v) size h (suc n) ≡ tasks_from queue size h n ++ (v ∷ [])
tasks_from-set queue size h zero t v l hs ns e =
    let here : t ≡ h = ground arith in
    ap (λ x. x ∷ []) (rw here (get_or-set_self queue h v no_task (omega arith)))
tasks_from-set queue size h (suc n) t v l hs ns e =
    let away : t ≢ h = λ same. tail-ne size h n hs ns (sym e ∙ same) in
    ap₂ ◌∷◌ (get_or-set_ne queue v no_task away) (
      tasks_from-set queue size (next_index size h) n t v l (next-lt size h hs) (omega arith)
        (e ∙ wrap-next size h n hs ns))

-- The source counts and moves the head; the tasks then lose their first.
pub pending-cons :
    (pool : ThreadPool)
    → pool.count ≢ 0
    → pending pool
      ≡ get_or pool.queue pool.head no_task
        ∷ tasks_from pool.queue pool.queue_size
            (next_index pool.queue_size pool.head)
            (pool.count - 1)
pending-cons pool ne =
    ap (tasks_from pool.queue pool.queue_size pool.head) {x = pool.count} {y = suc (pool.count - 1)}
      (omega arith)

pub pending-nil : (pool : ThreadPool) → pool.count ≡ 0 → pending pool ≡ []
pending-nil pool e = ap (tasks_from pool.queue pool.queue_size pool.head) e

pub length-pending : (pool : ThreadPool) → length (pending pool) ≡ pool.count
length-pending pool = length-tasks_from pool.queue pool.queue_size pool.head pool.count

-- `enqueue` into a pool that is not full puts the task last and keeps the ring.
pub enqueue-IsRing :
    (pool : ThreadPool) (task : Task)
    → IsRing pool
    → pool.count ≢ pool.queue_size
    → IsRing (enqueue pool task)
enqueue-IsRing pool task v ne = record {
  storage = length-set pool.queue pool.tail task ∙ v.storage;
  head_in = v.head_in;
  count_in = let c = v.count_in in omega arith;
  tail_at = ground arith;
}

pub pending-enqueue :
    (pool : ThreadPool) (task : Task)
    → IsRing pool
    → pool.count ≢ pool.queue_size
    → pending (enqueue pool task) ≡ pending pool ++ (task ∷ [])
pending-enqueue pool task v ne =
    ap (tasks_from (set pool.queue pool.tail task) pool.queue_size pool.head) {x = pool.count + 1}
      {y = suc pool.count} (omega arith)
    ∙ tasks_from-set pool.queue pool.queue_size pool.head pool.count pool.tail task v.storage
        v.head_in (omega arith) v.tail_at

-- Both indices that the code uses lie in the array.
pub IsRing-in_bounds :
    (pool : ThreadPool)
    → IsRing pool
    → (pool.head < length pool.queue) × (pool.tail < length pool.queue)
IsRing-in_bounds pool v = ground arith

pub relock-IsRing :
    (pool : ThreadPool) (held : Bool) → IsRing pool → IsRing (record pool { locked = held })
relock-IsRing pool held v = record {
  storage = v.storage;
  head_in = v.head_in;
  count_in = v.count_in;
  tail_at = v.tail_at;
}
