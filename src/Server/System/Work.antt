-- ===== src/Server/System/Work.antt =====
-- A step of a worker returns, and keeps the invariant.
pub mod Keeps
use footprints_ev.Base.{
  ℕ, zero, suc, ◌≡◌, ◌≢◌, refl, sym, ◌∙◌, ap, ap₂, subst, Option, none, some, List, [], ◌∷◌, ◌++◌,
  map, get_elem?, set, append_assoc,
}
use footprints_ev.Pool.{Ptr}
use footprints_ev.Server.Decode.{decode_thread-IsServing}
use footprints_ev.Server.Moves.{moved-IsServing, busy-IsMessage}
use footprints_ev.Server.Serving.{IsServing}
use footprints_ev.Server.System.{System, Hand, idle, decoding, left, work, step, with_pool}
use footprints_ev.Server.System.Observe.{worked}
use footprints_ev.Server.System.Safe.{Places, IsSafe, Allowed, held_by}
use footprints_ev.Server.Tasks.{obd_decode_thread}
use footprints_ev.Server.Whole.{taken}
use footprints_ev.ThreadPool
use footprints_ev.ThreadPool.{
  ThreadPool, Task, Round, wait, leave, take, running, thread_round, is_running,
}
use footprints_ev.ThreadPool.Enqueue.{task_of}
use footprints_ev.ThreadPool.Ring.{pending}
use footprints_ev.ThreadPool.Worker.{serve, meaning, rest, thread_round-serve, take-oldest}
use footprints_ev.Server.System.Traffic.{silent, begins, ends, Move, stay, begin, end', view}
use footprints_ev.Server.System.Callbacks.{Steps, Reaches, reached, returned_to-ok, messages-IsSafe}

-- a worker among the others
place :
    (hs : List Hand) (i : ℕ) (h : Hand)
    → get_elem? hs i ≡ some h
    → (us vs : List Hand) × (hs ≡ us ++ (h ∷ vs)) × ((h' : Hand) → set hs i h' ≡ us ++ (h' ∷ vs))
place [] i h e = absurd (cc)
place (x ∷ hs) zero h e = ([], hs, ap (λ r. r ∷ hs) (cc), λ h'. refl)
place (x ∷ hs) (suc i) h e =
    let (us, vs, here, there) = place hs i h e in
    (x ∷ us, vs, ap (λ r. x ∷ r) here, λ h'. ap (λ r. x ∷ r) (there h'))

held_by-append : (us vs : List Hand) → held_by (us ++ vs) ≡ held_by us ++ held_by vs
held_by-append [] vs = refl
held_by-append (idle ∷ us) vs = held_by-append us vs
held_by-append (decoding p ∷ us) vs = ap (λ r. p ∷ r) (held_by-append us vs)
held_by-append (left ∷ us) vs = held_by-append us vs

pub get_elem?-set :
    (hs : List Hand) (i : ℕ) (h h' : Hand)
    → get_elem? hs i ≡ some h
    → get_elem? (set hs i h') i ≡ some h'
get_elem?-set [] i h h' e = absurd (cc)
get_elem?-set (x ∷ hs) zero h h' e = refl
get_elem?-set (x ∷ hs) (suc i) h h' e = get_elem?-set hs i h h' e

-- a worker ends the task for `p`
pub finished-Reaches :
    (w : System) (l : Places) (i : ℕ) (p : Ptr)
    → IsSafe w l
    → get_elem? w.hands i ≡ some (decoding p)
    → (w.server.obds p).data_length ≢ 255
    → Reaches w (record l { free = p ∷ l.free }) (set w.hands i idle) (step (work i) w)
unfolding step
finished-Reaches w l i p g e short =
    let (us, vs, here, there) = place w.hands i (decoding p) e in
    let others = l.waiting ++ l.lost in
    let before = held_by us in
    let after = held_by vs in
    let split : held_by w.hands ++ others ≡ before ++ (p ∷ (after ++ others)) =
      ap (λ h. held_by h ++ others) here
      ∙ (ap (λ h. h ++ others) (held_by-append us (decoding p ∷ vs))
          ∙ append_assoc before (p ∷ after) others) in
    let join : before ++ (after ++ others) ≡ held_by (set w.hands i idle) ++ others =
      sym (append_assoc before after others)
      ∙ ap (λ h. h ++ others) (sym (ap held_by (there idle) ∙ held_by-append us (idle ∷ vs))) in
    let serving = subst (IsServing w.server l.free [] l.queued) split g.serving in
    let (out, t, run, serving', log, only, lengths) =
      decode_thread-IsServing w.server p l.free l.queued before (after ++ others) serving
        (busy-IsMessage w.server p l.free [] l.queued before (after ++ others) serving) short in
    (
      t,
      rw e (returned_to-ok (set w.hands i idle) run),
      messages-IsSafe w l (set w.hands i idle) t (p ∷ l.free) l.queued g only
          (subst (IsServing t (p ∷ l.free) [] l.queued) join serving'),
      lengths,
    )

pub with_pool-IsServing :
    (w : System) (pool : ThreadPool) (bs xs busy : List Ptr)
    → IsServing w.server bs [] xs busy
    → IsServing (with_pool w pool) bs [] xs busy
with_pool-IsServing w pool bs xs busy v = record {
  pool = v.pool;
  queue = v.queue;
  cells = v.cells;
  sentinel = v.sentinel;
  messages = v.messages;
}

-- a worker takes the oldest task
took-Reaches :
    (w : System) (l : Places) (i p : ℕ) (younger : List Ptr) (pool : ThreadPool)
    → IsSafe w l
    → get_elem? w.hands i ≡ some idle
    → l.waiting ≡ p ∷ younger
    → thread_round w.server.thread_pool ≡ take (task_of obd_decode_thread p) pool
    → Reaches w (record l { waiting = younger }) (set w.hands i (decoding p)) (step (work i) w)
unfolding step
took-Reaches w l i p younger pool g e first took =
    let (us, vs, here, there) = place w.hands i idle e in
    let before = held_by us in
    let after = held_by vs in
    let others = younger ++ l.lost in
    let (_, oldest, ring, unlocked, same, _) =
      take-oldest w.server.thread_pool g.ring g.unlocked (task_of obd_decode_thread p) pool took in
    let split : held_by w.hands ++ (l.waiting ++ l.lost) ≡ (before ++ after) ++ (p ∷ others) =
      ap (λ h. held_by h ++ (l.waiting ++ l.lost)) here
      ∙ (ap (λ h. h ++ (l.waiting ++ l.lost)) (held_by-append us (idle ∷ vs))
          ∙ ap (λ q. (before ++ after) ++ (q ++ l.lost)) first) in
    let join : before ++ (p ∷ (after ++ others)) ≡ held_by (set w.hands i (decoding p)) ++ others =
      sym (append_assoc before (p ∷ after) others)
      ∙ ap (λ h. h ++ others)
          (sym (ap held_by (there (decoding p)) ∙ held_by-append us (decoding p ∷ vs))) in
    let t = with_pool w pool in
    let serving =
      moved-IsServing w.server p l.free l.queued (before ++ after) others before (after ++ others)
        (append_assoc before after others)
        (subst (IsServing w.server l.free [] l.queued) split g.serving) in
    (
      t,
      rw (e, took) refl,
      record {
        serving =
            with_pool-IsServing w pool l.free l.queued _
              (subst (IsServing w.server l.free [] l.queued) join serving);
        watching = record {
          pool = g.watching.pool;
          distinct = g.watching.distinct;
          inside = g.watching.inside;
          empty = g.watching.empty;
        };
        ring = ring;
        unlocked = unlocked;
        on = same ∙ g.on;
        tasks = cc;
        flag = g.flag;
      },
      λ q. refl,
    )

waits : (r : Round) → meaning r ≡ some rest → r ≡ wait
waits wait e = refl
waits (leave pool) e = absurd (cc)
waits (take t pool) e = absurd (cc)
waits ThreadPool.fault e = absurd (cc)

serves :
    (w : System) (l : Places) (waiting : List Ptr)
    → IsSafe w l
    → l.waiting ≡ waiting
    → meaning (thread_round w.server.thread_pool)
      ≡ some (serve running (map (task_of obd_decode_thread) waiting))
serves w l waiting g e =
    let pool = w.server.thread_pool in
    thread_round-serve pool g.ring g.unlocked
    ∙ (ap (λ s. some (serve s (pending pool))) g.on
        ∙ ap (λ q. some (serve running q)) (g.tasks ∙ ap (map (task_of obd_decode_thread)) e))

-- an idle worker of a safe server takes the oldest pending task
pub take-Reaches :
    (w : System) (l : Places) (i p : ℕ) (younger : List Ptr)
    → IsSafe w l
    → get_elem? w.hands i ≡ some idle
    → l.waiting ≡ p ∷ younger
    → Reaches w (record l { waiting = younger }) (set w.hands i (decoding p)) (step (work i) w)
take-Reaches w l i p younger g e first =
    let (pool, round') =
      taken (thread_round w.server.thread_pool) (task_of obd_decode_thread p)
        (map (task_of obd_decode_thread) younger) (serves w l (p ∷ younger) g first) in
    took-Reaches w l i p younger pool g e first round'

begin-Move :
    (w : System) (l : Places) (i p : ℕ) (younger : List Ptr)
    → get_elem? w.hands i ≡ some idle
    → l.waiting ≡ p ∷ younger
    → Move
        (view l w.hands)
        (begins p)
        (view (record l { waiting = younger }) (set w.hands i (decoding p)))
begin-Move w l i p younger e first =
    let (us, vs, here, there) = place w.hands i idle e in
    begin p younger (held_by us) (held_by vs) first
      (ap held_by here ∙ held_by-append us (idle ∷ vs))
      (ap (λ h. record (view (record l { waiting = younger }) w.hands) { working = h })
        (ap held_by (there (decoding p)) ∙ held_by-append us (decoding p ∷ vs)))

end-Move :
    (w : System) (l : Places) (i : ℕ) (p : Ptr)
    → get_elem? w.hands i ≡ some (decoding p)
    → Move (view l w.hands) (ends p) (view (record l { free = p ∷ l.free }) (set w.hands i idle))
end-Move w l i p e =
    let (us, vs, here, there) = place w.hands i (decoding p) e in
    end' p (held_by us) (held_by vs) (ap held_by here ∙ held_by-append us (decoding p ∷ vs)) (
      ap (λ h. record (view l w.hands) { working = h })
        (ap held_by (there idle) ∙ held_by-append us (idle ∷ vs)))

-- an idle worker waits where no task is pending
pub idle-waits :
    (w : System) (l : Places) (i : ℕ)
    → IsSafe w l
    → get_elem? w.hands i ≡ some idle
    → l.waiting ≡ []
    → step (work i) w ≡ some w
unfolding step
idle-waits w l i g e none_left =
    let waiting = waits (thread_round w.server.thread_pool) (serves w l [] g none_left) in
    rw (e, waiting) refl

idle-IsSafe :
    (w : System) (l : Places) (i : ℕ) (waiting : List Ptr)
    → IsSafe w l
    → get_elem? w.hands i ≡ some idle
    → l.waiting ≡ waiting
    → Steps (work i) w l (step (work i) w)
idle-IsSafe w l i [] g e none_left = (
  w,
  l,
  idle-waits w l i g e none_left,
  g,
  subst (λ x. Move (view l w.hands) x (view l w.hands)) (sym (ap (λ h. worked h h) e)) (stay refl),
)
idle-IsSafe w l i (p ∷ younger) g e some_left =
    reached (work i) w l _ _ _ _ (begin-Move w l i p younger e some_left)
      (λ t g'. ap₂ worked e (get_elem?-set w.hands i idle (decoding p) e))
      (take-Reaches w l i p younger g e some_left)

pub hand-IsSafe :
    (w : System) (l : Places) (i : ℕ) (hand : Option Hand)
    → IsSafe w l
    → Allowed (work i) w
    → get_elem? w.hands i ≡ hand
    → Steps (work i) w l (step (work i) w)
unfolding step
hand-IsSafe w l i none g h e = (
  w,
  l,
  rw e refl,
  g,
  subst (λ x. Move (view l w.hands) x (view l w.hands)) (sym (ap (λ h. worked h h) e)) (stay refl),
)
hand-IsSafe w l i (some idle) g h e = idle-IsSafe w l i l.waiting g e refl
hand-IsSafe w l i (some (decoding p)) g h e =
    reached (work i) w l _ _ _ _ (end-Move w l i p e)
      (λ t g'. ap (λ x. worked x (get_elem? (set w.hands i idle) i)) e)
      (finished-Reaches w l i p g e (h p e))
hand-IsSafe w l i (some left) g h e = (
  w,
  l,
  rw e refl,
  g,
  subst (λ x. Move (view l w.hands) x (view l w.hands)) (sym (ap (λ h. worked h h) e)) (stay refl),
)
