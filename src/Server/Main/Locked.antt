-- ===== src/Server/Main/Locked.antt =====
-- The task of a worker while the mutex of the queue is held by a thread that is gone.
use footprints_ev.Base.{
  ℕ, ◌≡◌, refl, ◌∙◌, Bool, true, false, Option, none, some, List, arith, if◌then◌else◌, ◌==◌,
  Bool-cases, inl, inr, replicate,
}
use footprints_ev.Mq
use footprints_ev.Obd
use footprints_ev.Obd.{Obd, buf_size}
use footprints_ev.Pool
use footprints_ev.Pool.{Ptr, null, Heap, MemoryPool}
use footprints_ev.Server.{
  Server, Run, ok, fault, blocked, endless, Cmd, and_then, pure, ◌>>=◌, ◌>>◌, free_obd, from_free,
  with_obd,
}
use footprints_ev.Server.Messages.{on_mq, get_obd, set_obd, obd_release}
use footprints_ev.Server.Tasks.{decode_thread, from_filter, shown}

-- the server with the mutex of its queue held
abbrev pub held_up : Server → Server
held_up s = record s { obd_mq = record s.obd_mq { locked = true } }

-- the pool of the buffers has the head and the block size that it had
abbrev pub SamePool : Server → Server → Type 0
SamePool s t =
    (t.obd_pool.pool.head ≡ s.obd_pool.pool.head)
    × (t.obd_pool.pool.block_size ≡ s.obd_pool.pool.block_size)

-- where a call from `s` returns, it returns the same with the mutex held
abbrev pub Follows : {A : Type 0} → Server → Run A → Run A → Type 0
Follows s (ok a t) r = (r ≡ ok a (held_up t)) × SamePool s t
Follows s fault r = Unit {0}
Follows s blocked r = Unit {0}
Follows s endless r = Unit {0}

abbrev pub Steady : {A : Type 0} → Cmd A → Type 0
Steady m = (s : Server) → Follows s (m s) (m (held_up s))

later : {B : Type 0} (s t : Server) (r r' : Run B) → SamePool s t → Follows t r r' → Follows s r r'
later s t (ok a u) r' same f = (f.0, (f.1.0 ∙ same.0, f.1.1 ∙ same.1))
later s t fault r' same f = tt
later s t blocked r' same f = tt
later s t endless r' same f = tt

module _ {A B : Type 0} where
  Follows-then :
      (k : A → Cmd B) (s : Server) (r r' : Run A)
      → Follows s r r'
      → ((a : A) → Steady (k a))
      → Follows s (and_then r k) (and_then r' k)
  Follows-then k s (ok a t) r' f steady =
      rw f.0 (later s t (k a t) (k a (held_up t)) f.1 (steady a t))
  Follows-then k s fault r' f steady = tt
  Follows-then k s blocked r' f steady = tt
  Follows-then k s endless r' f steady = tt

  pub Steady-then :
      (m : Cmd A) (k : A → Cmd B) → Steady m → ((a : A) → Steady (k a)) → Steady (m >>= k)
  Steady-then m k here there s = Follows-then k s (m s) (m (held_up s)) (here s) there

list_init-Steady : (p : Ptr) → Steady (on_mq (Mq.list_init p))
unfolding Mq.list_init Mq.set_next Mq.set_prev
list_init-Steady p s = elim (Bool-cases (s.obd_mq.heap.live p)) [
  | inl there ↦ rw (there, there) (refl, (refl, refl))
  | inr gone ↦ rw gone tt
]

from_free-Follows :
    (s : Server) (r : Pool.Run (Heap × MemoryPool))
    → ((h : Heap) (pool : MemoryPool)
        → r ≡ Pool.ok (h, pool)
        → (pool.head ≡ s.obd_pool.pool.head) × (pool.block_size ≡ s.obd_pool.pool.block_size))
    → Follows s (from_free (with_obd s) r) (from_free (with_obd (held_up s)) r)
from_free-Follows s (Pool.ok (h, pool)) same = (refl, same h pool refl)
from_free-Follows s Pool.fault same = tt
from_free-Follows s Pool.out_of_fuel same = tt

free-same :
    (h : Heap) (pool : MemoryPool) (p : Ptr) (h' : Heap) (pool' : MemoryPool)
    → Pool.free h pool p ≡ Pool.ok (h', pool')
    → (pool'.head ≡ pool.head) × (pool'.block_size ≡ pool.block_size)
unfolding Pool.free
free-same h pool p h' pool' e = ground arith

free_obd-Steady : (p : Ptr) → Steady (free_obd p)
unfolding free_obd
free_obd-Steady p s =
    from_free-Follows s (Pool.free s.obd_pool.heap s.obd_pool.pool p)
      (free-same s.obd_pool.heap s.obd_pool.pool p)

-- `OBD_release` of a buffer that is not NULL
abbrev released_from : Ptr → Cmd (Unit {0})
released_from p = do
  on_mq (Mq.list_init p)
  o ← get_obd p
  set_obd p (record o { data_bytes = replicate buf_size 0 })
  free_obd p

pure-Steady : {A : Type 0} (a : A) → Steady (pure a)
pure-Steady a s = (refl, (refl, refl))

release-Steady : (p : Ptr) (empty : Bool) → Steady (if empty then pure tt else released_from p)
release-Steady p true = pure-Steady tt
release-Steady p false = Steady-then (on_mq (Mq.list_init p)) _ (list_init-Steady p) λ u.
    Steady-then (get_obd p) _ (λ s. (refl, (refl, refl)))
      λ o.
        Steady-then (set_obd p (record o { data_bytes = replicate buf_size 0 })) (λ u. free_obd p)
          (λ s. (refl, (refl, refl))) λ u. free_obd-Steady p

obd_release-Steady : (p : Ptr) → Steady (obd_release p)
unfolding obd_release
obd_release-Steady p = release-Steady p (p == null)

from_filter-Steady : (p : Ptr) (r : Obd.Run (Bool × Obd)) → Steady (λ s. from_filter s p r)
from_filter-Steady p (Obd.finished (done, o)) s = (refl, (refl, refl))
from_filter-Steady p Obd.fault s = tt
from_filter-Steady p Obd.out_of_fuel s = tt

shown-Steady : (out : Option (List (ℕ × ℕ))) → Steady (shown out)
shown-Steady none s = tt
shown-Steady (some out) s = (refl, (refl, refl))

-- the task of a worker does not look at the mutex
pub decode_thread-Steady : (fuel : ℕ) (p : Ptr) → Steady (decode_thread fuel p)
unfolding decode_thread
decode_thread-Steady fuel p =
    Steady-then (get_obd p) _ (λ s. (refl, (refl, refl)))
      λ o.
        Steady-then (λ s. from_filter s p (Obd.filter_escape fuel o)) _
          (from_filter-Steady p (Obd.filter_escape fuel o))
          λ u.
            Steady-then (get_obd p) _ (λ s. (refl, (refl, refl)))
              λ o'. Steady-then (shown (Obd.decode o')) _ (shown-Steady (Obd.decode o')) λ out.
                Steady-then (obd_release p) (λ u. pure out) (obd_release-Steady p)
                  λ u. pure-Steady out
