-- ===== src/Server/Receive.antt =====
-- `read_func_cb`: what arrives on a connection is queued, or its buffer is given back.
pub mod Gone
use footprints_ev.Base.{
  ℕ, ◌%◌, ◌≤◌, ◌<◌, ◌≡◌, ◌≢◌, refl, sym, ap, ◌∙◌, subst, Bool, true, false, not, some, none, List,
  [], ◌∷◌, ◌++◌, arith, update, update_self, length, ◌==◌, if◌then◌else◌, Bool-cases, inl, inr,
  mod-eq_of_lt,
}
use footprints_ev.Mq
use footprints_ev.Obd.{Obd, buf_size}
use footprints_ev.Obd.Bounds.{IsSized, IsMessage}
use footprints_ev.Pool.{Ptr, null}
use footprints_ev.Server.{Server, Effect, send_ok, close, stop, Run, ok, ◌>>◌}
use footprints_ev.Server.Messages.{
  on_mq, Received, failed, bytes, receive_into, read_message, received, read_func_cb, obd_release,
}
use footprints_ev.Server.Frame.{OnlyMessages, then_messages, SameTasks}
use footprints_ev.Server.Watchers.{IsWatching, IsWatching-kept}
use footprints_ev.Server.Watchers.Close.{free_libev-open}
use footprints_ev.Server.Buffer.{
  text_length, text_length-le, receive_into-image, receive_into-IsMessage, get_cmd-some,
}
use footprints_ev.Server.Serving.{
  IsServing, IsServing-kept, set_obd-IsServing, list_init-held, mq_put-held, unlinked,
}
use footprints_ev.Server.Serving.Lifetime.{obd_init-IsServing, obd_release-IsServing}

-- Is what arrived a message? A text of 256 bytes is not: its length does not fit `data_length`.
abbrev pub is_text : List ℕ → Bool
is_text bs = not (text_length bs % 256 == 0)

abbrev pub takes : Bool → Received → Bool
takes true result = false
takes false failed = false
takes false (bytes bs) = is_text bs

abbrev pub Fits : Received → Type 0
Fits failed = Unit {0}
Fits (bytes bs) = length bs ≤ buf_size

-- the call returned, with the buffer `p` in front of the queue and a reply sent, or given back
abbrev pub Receives : Bool → ℕ → Ptr → Server → List Ptr → List Ptr → Run (Unit {0}) → Type 0
Receives take fd p s xs busy r =
    (t : Server) × (bs : List Ptr) × (r ≡ ok tt t)
    × IsServing t bs [] (if take then p ∷ xs else xs) busy
    × (t.log ≡ (if take then s.log ++ (send_ok fd ∷ []) else s.log))
    × OnlyMessages s t

given_back :
    (s : Server) (fd : ℕ) (p : Ptr) (bs xs busy : List Ptr)
    → IsServing s bs (p ∷ []) xs busy
    → Receives false fd p s xs busy (obd_release p s)
given_back s fd p bs xs busy v =
    let (t, run, v', log, only, _) = obd_release-IsServing s p bs xs busy v in
    (t, p ∷ bs, run, v', log, only)

-- what a call did since an earlier state
since :
    (take : Bool) (fd : ℕ) (p : Ptr) (xs busy : List Ptr) {s t : Server} {r : Run (Unit {0})}
    → t.log ≡ s.log
    → OnlyMessages s t
    → Receives take fd p t xs busy r
    → Receives take fd p s xs busy r
since take fd p xs busy e only (u, bs, run, v, log, only') = (
  u,
  bs,
  run,
  v,
  log ∙ ap (λ l. if take then l ++ (send_ok fd ∷ []) else l) e,
  then_messages only only',
)

read_message-drops :
    (fd : ℕ) (p : Ptr) (text : List ℕ) (s : Server) (bs xs busy : List Ptr)
    → IsServing s bs (p ∷ []) xs busy
    → IsSized (s.obds p)
    → length text ≤ 256
    → (text_length text % 256 == 0) ≡ true
    → Receives false fd p s xs busy (read_message fd p text s)
unfolding read_message
read_message-drops fd p text s bs xs busy v sized h z =
    let (_, text_is) = receive_into-image text (s.obds p) sized h in
    let o : Obd = record (receive_into text (s.obds p)) { data_length = text_length text % 256 } in
    rw text_is (
      rw z (
        since false fd p xs busy {s = s} {t = record s { obds = update s.obds p o }} refl
          (record { same_list = refl; same_ev = refl; same_pool = refl; same_flag = refl })
          (given_back (record s { obds = update s.obds p o }) fd p bs xs busy
            (set_obd-IsServing s p o bs xs busy v))))

logged-IsServing :
    (s : Server) (effect : Effect) (bs ps xs busy : List Ptr)
    → IsServing s bs ps xs busy
    → IsServing (record s { log = s.log ++ (effect ∷ []) }) bs ps xs busy
logged-IsServing s effect bs ps xs busy v = record {
  pool = v.pool;
  queue = v.queue;
  cells = v.cells;
  sentinel = v.sentinel;
  messages = v.messages;
}

queued-IsServing :
    (s : Server) (p : Ptr) (bs xs busy : List Ptr)
    → IsServing s bs (p ∷ []) xs busy
    → IsMessage (s.obds p)
    → (q : Mq.State) × ((on_mq (Mq.list_init p) >> on_mq (Mq.mq_put p)) s
        ≡ ok tt (record s { obd_mq = q }))
      × IsServing (record s { obd_mq = q }) bs [] (p ∷ xs) busy
queued-IsServing s p bs xs busy v m =
    let (linked, v') = list_init-held s p bs xs busy v in
    let (q, put, v'') = mq_put-held (record s { obd_mq = unlinked p s.obd_mq }) p bs xs busy v' m in
    (q, rw linked put, v'')

pub read_message-message :
    (fd : ℕ) (p : Ptr) (text : List ℕ) (s : Server) (bs xs busy : List Ptr)
    → IsServing s bs (p ∷ []) xs busy
    → IsSized (s.obds p)
    → length text ≤ 256
    → (text_length text % 256 == 0) ≡ false
    → (t : Server) × (id : ℕ) × (read_message fd p text s ≡ ok tt t)
      × IsServing t bs [] (p ∷ xs) busy
      × (t.log ≡ s.log ++ (send_ok fd ∷ []))
      × (t.obds p
          ≡ record (receive_into text (s.obds p)) { data_length = text_length text % 256; id = id })
      × OnlyMessages s t
unfolding read_message
read_message-message fd p text s bs xs busy v sized h z =
    let (sized', text_is) = receive_into-image text (s.obds p) sized h in
    let le = text_length-le text in
    let small : text_length text < 256 = ground arith in
    let n = text_length text in
    let o : Obd = record (receive_into text (s.obds p)) { data_length = n % 256 } in
    let (id, cmd) =
      get_cmd-some o (record { data_size = sized'.data_size; hex_size = sized'.hex_size }) in
    let o' : Obd = record o { id = id } in
    let s' : Server = record s { log = s.log ++ (send_ok fd ∷ []) } in
    let v' = logged-IsServing s (send_ok fd) bs (p ∷ []) xs busy v in
    let v'' = set_obd-IsServing s' p o bs xs busy v' in
    let v''' = set_obd-IsServing (record s' { obds = update s.obds p o }) p o' bs xs busy v'' in
    let t : Server = record s' { obds = update (update s.obds p o) p o' } in
    let message : IsMessage o' =
      subst (λ k. IsMessage (record (receive_into text (s.obds p)) { data_length = k; id = id }))
        (sym (mod-eq_of_lt small)) (receive_into-IsMessage text (s.obds p) id sized h small) in
    let (q, queued, v'''') =
      queued-IsServing t p bs xs busy v''' (rw (update_self (update s.obds p o) p o') message) in
    rw text_is (
      rw (z, cmd)
        (
          record t { obd_mq = q },
          id,
          queued,
          v'''',
          refl,
          update_self (update s.obds p o) p o',
          record { same_list = refl; same_ev = refl; same_pool = refl; same_flag = refl },
        ))

read_message-queues :
    (fd : ℕ) (p : Ptr) (text : List ℕ) (s : Server) (bs xs busy : List Ptr)
    → IsServing s bs (p ∷ []) xs busy
    → IsSized (s.obds p)
    → length text ≤ 256
    → (text_length text % 256 == 0) ≡ false
    → Receives true fd p s xs busy (read_message fd p text s)
read_message-queues fd p text s bs xs busy v sized h z =
    let (t, _, run, v', log, _, only) = read_message-message fd p text s bs xs busy v sized h z in
    (t, bs, run, v', log, only)

pub branches :
    (error : Bool) (result : Received) (fd : ℕ) (p : Ptr) (s : Server) (bs xs busy : List Ptr)
    → IsServing s bs (p ∷ []) xs busy
    → IsSized (s.obds p)
    → Fits result
    → result ≢ bytes []
    → Receives
        (takes error result)
        fd
        p
        s
        xs
        busy
        ((if error then obd_release p else received fd p result) s)
branches true result fd p s bs xs busy v sized fit here = given_back s fd p bs xs busy v
branches false failed fd p s bs xs busy v sized fit here = given_back s fd p bs xs busy v
branches false (bytes []) fd p s bs xs busy v sized fit here = absurd (here refl)
branches false (bytes (b ∷ text)) fd p s bs xs busy v sized fit here =
    elim (Bool-cases (text_length (b ∷ text) % 256 == 0)) [
      | inl z ↦
          subst (λ k. Receives (not k) fd p s xs busy (read_message fd p (b ∷ text) s)) (sym z)
            (read_message-drops fd p (b ∷ text) s bs xs busy v sized fit z)
      | inr z ↦
          subst (λ k. Receives (not k) fd p s xs busy (read_message fd p (b ∷ text) s)) (sym z)
            (read_message-queues fd p (b ∷ text) s bs xs busy v sized fit z)
    ]

-- Where the system has memory and the client is still there, `read_func_cb` returns on every branch:
-- a text of 1 to 255 bytes is queued in front and answered with OK, everything else is dropped
-- without an answer. No buffer is lost: each that was allocated is free, queued or with the thread pool, none is in two
-- places, and each queued buffer is a message.
pub read_func_cb-IsServing :
    (a : Ptr) (error : Bool) (fd : ℕ) (result : Received) (s : Server) (bs xs busy : List Ptr)
    → IsServing s bs [] xs busy
    → a ≢ null
    → s.obd_pool.heap.size a ≡ none
    → s.obd_mq.heap.live a ≡ true
    → a ≢ s.obd_mq.list
    → Fits result
    → result ≢ bytes []
    → (p : Ptr) × Receives
        (takes error result)
        fd
        p
        s
        xs
        busy
        (read_func_cb (some a) error fd result s)
unfolding read_func_cb
read_func_cb-IsServing a error fd result s bs xs busy v ne fresh live apart fit here =
    let (p, bs', t, run, v', message, log, only) =
      obd_init-IsServing a s bs xs busy v ne fresh live apart in
    (
      p,
      rw run (
          since (takes error result) fd p xs busy {s = s} {t = t} log only
            (branches error result fd p t bs' xs busy v' message.sized fit here)),
    )
