-- ===== src/Mq/Threads/Steady.antt =====
-- No access between the lock and the unlock of a call touches the mutex.
use footprints_ev.Base.{ℕ, ◌≡◌, Bool, true, false, none, arith, ◌==◌, if◌then◌else◌}
use footprints_ev.Mq.{
  Ptr, State, ok, Cmd, get_next, get_prev, set_next, set_prev, mq_list, set_size, inc32, dec32,
}
use footprints_ev.Mq.Queue.{Op, put, get}
use footprints_ev.Mq.Threads.{Prog, done, load, store, put_body, get_body, body, unlink_then}

-- an access that leaves the mutex as it is
abbrev pub Keeps : {A : Type 0} → Cmd A → Type 0
Keeps {A} m = (s t : State) (a : A) → m s ≡ ok a t → t.locked ≡ s.locked

abbrev pub Steady : Prog → Type 0
Steady (done r) = Unit {0}
Steady (load m k) = Keeps m × ((a : Ptr) → Steady (k a))
Steady (store m p) = Keeps m × Steady p

get_next-Keeps : (p : Ptr) → Keeps (get_next p)
unfolding get_next
get_next-Keeps p s t a e = ground arith

get_prev-Keeps : (p : Ptr) → Keeps (get_prev p)
unfolding get_prev
get_prev-Keeps p s t a e = ground arith

set_next-Keeps : (p v : Ptr) → Keeps (set_next p v)
unfolding set_next
set_next-Keeps p v s t a e = ground arith

set_prev-Keeps : (p v : Ptr) → Keeps (set_prev p v)
unfolding set_prev
set_prev-Keeps p v s t a e = ground arith

mq_list-Keeps : Keeps mq_list
mq_list-Keeps s t a e = cc

set_size-Keeps : (f : ℕ → ℕ) → Keeps (set_size f)
set_size-Keeps f s t a e = cc

put_body-Steady : (n : Ptr) → Steady (put_body n)
unfolding put_body
put_body-Steady n = (
  mq_list-Keeps,
  λ head. (
    get_next-Keeps head,
    λ first. (
      set_next-Keeps n first,
      (
        get_next-Keeps head,
        λ first. (
          set_prev-Keeps first n,
          (set_next-Keeps head n, (set_prev-Keeps n head, (set_size-Keeps inc32, tt))),
        ),
      ),
    ),
  ),
)

unlink-Steady : (head current : Ptr) → Steady (unlink_then head current)
unlink-Steady head current = (
  get_prev-Keeps current,
  λ before. (
    set_next-Keeps before head,
    (
      get_prev-Keeps current,
      λ before. (
        set_prev-Keeps head before,
        (
          set_next-Keeps current current,
          (set_prev-Keeps current current, (set_size-Keeps dec32, tt)),
        ),
      ),
    ),
  ),
)

if-Steady : (b : Bool) (p q : Prog) → Steady p → Steady q → Steady (if b then p else q)
if-Steady true p q a b = a
if-Steady false p q a b = b

get_body-Steady : Steady get_body
unfolding get_body
get_body-Steady = (
  mq_list-Keeps,
  λ head. (
    get_prev-Keeps head,
    λ current.
        if-Steady (current == head) (done none) (unlink_then head current) tt
          (unlink-Steady head current),
  ),
)

pub body-Steady : (op : Op) → Steady (body op)
body-Steady (put n) = put_body-Steady n
body-Steady get = get_body-Steady
