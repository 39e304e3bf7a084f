-- ===== src/Server/System/Rounds.antt =====
-- A round of the dispatcher returns, and keeps the invariant.
use footprints_ev.Base.{
  ℕ, ◌≡◌, refl, sym, ◌∙◌, ap, subst, true, false, List, [], ◌∷◌, ◌++◌, map, append_assoc, ◌⊎◌, inl,
  inr, length, ◌==◌, Bool-cases, ==_iff, ne→==_false,
}
use footprints_ev.Mq.Get.{mq_get-nil}
use footprints_ev.Mq.IsQueue.{IsQueue}
use footprints_ev.Pool.{Ptr}
use footprints_ev.Server.{Server}
use footprints_ev.Server.Dispatch.{dispatch-offer, dispatch-running}
use footprints_ev.Server.Moves.{moved-IsServing}
use footprints_ev.Server.Serving.{IsServing}
use footprints_ev.Server.System.{System, Hand, round, step}
use footprints_ev.Server.System.Safe.{Places, IsSafe, held_by}
use footprints_ev.Server.Tasks.{obd_decode_thread}
use footprints_ev.ThreadPool.{is_running}
use footprints_ev.ThreadPool.Enqueue.{all_ok, task_of, offer}
use footprints_ev.ThreadPool.Ring.{pending, length-pending}
use footprints_ev.Server.System.Traffic.{
  silent, is_refused, is_accepted, Move, stay, refuse, accept, view,
}
use footprints_ev.Server.System.Observe.{observe, oldest}
use footprints_ev.Mq.Chain.{PrevChain-init, NotIn-init}
use footprints_ev.Server.System.Callbacks.{Steps, Reaches, reached, returned_to-ok}

-- the queue: empty, or with an oldest message
abbrev pub snoc-cases :
    (xs : List Ptr) → (xs ≡ []) ⊎ ((ys : List Ptr) × (y : Ptr) × (xs ≡ ys ++ (y ∷ [])))
snoc-cases [] = inl refl
snoc-cases (x ∷ xs) =
    inr (elim (snoc-cases xs) [ inl e ↦ ([], x, rw e) | inr (ys, y, e) ↦ (x ∷ ys, y, rw e) ])

map-snoc :
    {A B : Type 0} (f : A → B) (xs : List A) (x : A)
    → map f (xs ++ (x ∷ [])) ≡ map f xs ++ (f x ∷ [])
map-snoc f [] x = refl
map-snoc f (y ∷ xs) x = ap (λ r. f y ∷ r) (map-snoc f xs x)

-- Where the buffer of an offered task is afterwards: with a pending task, or turned away.
abbrev pub Placed : ℕ → Ptr → Places → List Hand → List Ptr → List Ptr → List Ptr → Type 0
Placed cap x l hands xs waiting lost =
    ((offer cap true (map (task_of obd_decode_thread) l.waiting) (task_of obd_decode_thread x)).1
      ≡ map (task_of obd_decode_thread) waiting)
    × ((s : Server)
        → IsServing s l.free [] xs (x ∷ (held_by hands ++ (l.waiting ++ l.lost)))
        → IsServing s l.free [] xs (held_by hands ++ (waiting ++ lost)))

behind :
    (x : ℕ) (l : Places) (hands : List Hand) (xs : List Ptr) (s : Server)
    → IsServing s l.free [] xs (x ∷ (held_by hands ++ (l.waiting ++ l.lost)))
    → IsServing s l.free [] xs ((held_by hands ++ l.waiting) ++ (x ∷ l.lost))
behind x l hands xs s =
    let held = held_by hands in
    moved-IsServing s x l.free xs [] (held ++ (l.waiting ++ l.lost)) (held ++ l.waiting) l.lost
      (sym (append_assoc held l.waiting l.lost))

pub room-Placed :
    (cap x : ℕ) (l : Places) (hands : List Hand) (xs : List Ptr)
    → (length (map (task_of obd_decode_thread) l.waiting) == cap) ≡ false
    → Placed cap x l hands xs (l.waiting ++ (x ∷ [])) l.lost
room-Placed cap x l hands xs room = (
  rw room (sym (map-snoc (task_of obd_decode_thread) l.waiting x)),
  λ s v.
      subst (IsServing s l.free [] xs)
        (append_assoc (held_by hands) l.waiting (x ∷ l.lost)
          ∙ ap (λ r. held_by hands ++ r) (sym (append_assoc l.waiting (x ∷ []) l.lost)))
        (behind x l hands xs s v),
)

full-Placed :
    (cap x : ℕ) (l : Places) (hands : List Hand) (xs : List Ptr)
    → (length (map (task_of obd_decode_thread) l.waiting) == cap) ≡ true
    → Placed cap x l hands xs l.waiting (x ∷ l.lost)
full-Placed cap x l hands xs full = (
  rw full refl,
  λ s v.
      subst (IsServing s l.free [] xs) (append_assoc (held_by hands) l.waiting (x ∷ l.lost))
        (behind x l hands xs s v),
)

-- the oldest message, if there is one
oldest-queued :
    (w : System) (l : Places) (ys : List Ptr) (y : Ptr)
    → IsSafe w l
    → l.queued ≡ ys ++ (y ∷ [])
    → (oldest w.server.obd_mq ≡ y) × ((oldest w.server.obd_mq == w.server.obd_mq.list) ≡ false)
oldest-queued w l ys y g e =
    let s = w.server.obd_mq in
    let q = subst (λ xs. IsQueue s xs) e g.serving.queue in
    let last = (PrevChain-init s.heap.prev s.list ys y s.list q.prev_chain).1 in
    let apart = (NotIn-init s.list y ys q.apart).1 in
    (last, ne→==_false (oldest s) s.list (λ same. apart (sym same ∙ last)))

-- the test for a full thread pool
full-waiting :
    (w : System) (l : Places)
    → IsSafe w l
    → (w.server.thread_pool.count == w.server.thread_pool.queue_size)
      ≡ (length (map (task_of obd_decode_thread) l.waiting) == w.server.thread_pool.queue_size)
full-waiting w l g =
    ap (λ n. n == w.server.thread_pool.queue_size)
      (sym (length-pending w.server.thread_pool) ∙ ap length g.tasks)

observe-empty : (w : System) (l : Places) → IsSafe w l → l.queued ≡ [] → observe round w w ≡ silent
observe-empty w l g e =
    let q = subst (λ xs. IsQueue w.server.obd_mq xs) e g.serving.queue in
    let none_left : (oldest w.server.obd_mq == w.server.obd_mq.list) ≡ true =
      (==_iff (oldest w.server.obd_mq) w.server.obd_mq.list).1 q.prev_chain in
    rw none_left refl

observe-refused :
    (w u : System) (l : Places) (ys : List Ptr) (y : Ptr)
    → IsSafe w l
    → l.queued ≡ ys ++ (y ∷ [])
    → (length (map (task_of obd_decode_thread) l.waiting) == w.server.thread_pool.queue_size) ≡ true
    → observe round w u ≡ is_refused y
observe-refused w u l ys y g e slots =
    let (last, ne) = oldest-queued w l ys y g e in
    rw (ne, full-waiting w l g ∙ slots) (ap is_refused last)

observe-accepted :
    (w u : System) (l : Places) (ys : List Ptr) (y : Ptr)
    → IsSafe w l
    → l.queued ≡ ys ++ (y ∷ [])
    → (length (map (task_of obd_decode_thread) l.waiting) == w.server.thread_pool.queue_size)
      ≡ false
    → observe round w u ≡ is_accepted y
observe-accepted w u l ys y g e slots =
    let (last, ne) = oldest-queued w l ys y g e in
    rw (ne, full-waiting w l g ∙ slots) (ap is_accepted last)

round-empty :
    (w : System) (l : Places) → IsSafe w l → l.queued ≡ [] → Steps round w l (step round w)
unfolding step
round-empty w l g e = (
  w,
  l,
  returned_to-ok {a = false} w.hands (
      dispatch-running w.server all_ok g.flag
      ∙ rw (mq_get-nil w.server.obd_mq (subst (λ q. IsQueue w.server.obd_mq q) e g.serving.queue))
          refl),
  g,
  subst (λ x. Move (view l w.hands) x (view l w.hands)) (sym (observe-empty w l g e)) (stay refl),
)

pub round-Reaches :
    (w : System) (l : Places) (ys : List Ptr) (y : Ptr) (waiting lost : List Ptr)
    → IsSafe w l
    → l.queued ≡ ys ++ (y ∷ [])
    → Placed w.server.thread_pool.queue_size y l w.hands ys waiting lost
    → Reaches w (record l { queued = ys; waiting = waiting; lost = lost }) w.hands (step round w)
unfolding step
round-Reaches w l ys y waiting lost g e (tasks, give) =
    let busy = held_by w.hands ++ (l.waiting ++ l.lost) in
    let (t, run, serving, ring, offered, obds, free, on, same) =
      dispatch-offer w.server y l.free ys busy
        (subst (λ q. IsServing w.server l.free [] q busy) e g.serving) g.flag g.ring g.unlocked in
    (
      t,
      returned_to-ok w.hands run,
      record {
        serving = give t serving;
        watching = record {
          pool = rw (same.same_ev, same.same_list) g.watching.pool;
          distinct = g.watching.distinct;
          inside = g.watching.inside;
          empty = rw same.same_list g.watching.empty;
        };
        ring = ring;
        unlocked = free;
        on = on ∙ g.on;
        tasks =
            let task = task_of obd_decode_thread y in
            let cap = w.server.thread_pool.queue_size in
            offered
            ∙ (ap (λ sd. (offer cap (is_running sd) (pending w.server.thread_pool) task).1) g.on
                ∙ (ap (λ q. (offer cap true q task).1) g.tasks ∙ tasks));
        flag = same.same_flag ∙ g.flag;
      },
      λ q. ap (λ f. (f q).data_length) obds,
    )

pub round-IsSafe : (w : System) (l : Places) → IsSafe w l → Steps round w l (step round w)
round-IsSafe w l g =
    let cap = w.server.thread_pool.queue_size in
    elim (snoc-cases l.queued) [
      | inl e ↦ round-empty w l g e
      | inr (ys, y, e) ↦
          elim (Bool-cases (length (map (task_of obd_decode_thread) l.waiting) == cap)) [
            | inl full ↦
                reached round w l _ w.hands _ _ (refuse y ys e refl)
                  (λ t g'. observe-refused w (record w { server = t }) l ys y g e full)
                  (round-Reaches w l ys y l.waiting (y ∷ l.lost) g e
                    (full-Placed cap y l w.hands ys full))
            | inr room ↦
                reached round w l _ w.hands _ _ (accept y ys e refl)
                  (λ t g'. observe-accepted w (record w { server = t }) l ys y g e room)
                  (round-Reaches w l ys y (l.waiting ++ (y ∷ [])) l.lost g e
                    (room-Placed cap y l w.hands ys room))
          ]
    ]
