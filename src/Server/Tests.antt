-- ===== src/Server/Tests.antt =====
-- A small server, and the theorems at it.
use footprints_ev.Base.{
  ℕ, ◌≡◌, refl, true, false, some, none, List, [], ◌∷◌, arith, ◌==◌, if◌then◌else◌,
}
use footprints_ev.Obd.Escape.{escape, chars, frame}
use footprints_ev.Server.{close, stop, Server, ok, blocked}
use footprints_ev.Server.Connections.{accept_func_cb}
use footprints_ev.Server.Messages.{bytes, read_func_cb}
use footprints_ev.Server.Tasks.{dispatch, decode_thread}
use footprints_ev.Server.Watchers.{IsWatching}
use footprints_ev.Server.Watchers.Accept.{Opens, accept_func_cb-IsWatching}
use footprints_ev.Server.Frame.{SameTasks, SameConnections}
use footprints_ev.Server.Serving.{IsServing}
use footprints_ev.Server.Receive.{Receives, read_func_cb-IsServing}
use footprints_ev.Server.Receive.Gone.{read_func_cb-gone}
use footprints_ev.Server.Dispatch.{dispatch-offer, dispatch-shutdown}
use footprints_ev.Server.Whole.{frame-served}
use footprints_ev.ThreadPool.{ThreadPool, running, thread_round, take}
use footprints_ev.ThreadPool.Ring.{pending, IsRing}
use footprints_ev.ThreadPool.Enqueue.{all_ok, task_of}
use footprints_ev.Server.Sample.{
  payload, text, message-IsMessage, workers, workers-IsRing, server, server-IsWatching,
  server-IsServing,
}

accept_func_cb-IsWatching_example :
    Opens server (7 ∷ 5 ∷ []) (accept_func_cb (some 30) false (some 7) server)
accept_func_cb-IsWatching_example =
    accept_func_cb-IsWatching 30 false (some 7) server (5 ∷ []) [] server-IsWatching
      (λ e. omega arith) refl (λ e. cc)

read_func_cb-IsServing_example :
    (p : ℕ) × Receives true 5 p server
      (200 ∷ [])
      []
      (read_func_cb (some 300) false 5 (bytes text) server)
read_func_cb-IsServing_example =
    read_func_cb-IsServing 300 false 5 (bytes text) server [] (200 ∷ []) [] server-IsServing
      (λ e. omega arith) refl refl (λ e. omega arith) (omega arith) (λ e. cc)

dispatch-offer_example :
    (t : Server) × (dispatch all_ok server ≡ ok false t)
    × IsServing t [] [] [] (200 ∷ [])
    × IsRing t.thread_pool
    × (pending t.thread_pool ≡ task_of 1 200 ∷ [])
    × (t.obds ≡ server.obds)
    × (t.thread_pool.locked ≡ false)
    × (t.thread_pool.shutdown ≡ running)
    × SameConnections server t
dispatch-offer_example =
    dispatch-offer server 200 [] [] [] server-IsServing refl workers-IsRing refl

-- the thread pool full
abbrev crowded : Server
crowded = record server { thread_pool = record workers { count = 1 } }

crowded-IsServing : IsServing crowded [] [] (200 ∷ []) []
crowded-IsServing = record {
  pool = server-IsServing.pool;
  queue = server-IsServing.queue;
  cells = server-IsServing.cells;
  sentinel = server-IsServing.sentinel;
  messages = server-IsServing.messages;
}

abbrev leaving : Server
leaving = record server { mq_flag = true }

leaving-IsServing : IsServing leaving [] [] (200 ∷ []) []
leaving-IsServing = record {
  pool = server-IsServing.pool;
  queue = server-IsServing.queue;
  cells = server-IsServing.cells;
  sentinel = server-IsServing.sentinel;
  messages = server-IsServing.messages;
}

dispatch-shutdown_example : dispatch all_ok leaving ≡ blocked
dispatch-shutdown_example = dispatch-shutdown leaving all_ok [] (200 ∷ []) [] leaving-IsServing refl

-- the message with a worker
abbrev decoding : Server
decoding = record server {
  obd_mq = record server.obd_mq {
    heap = record { live = λ p. true; next = λ p. p; prev = λ p. p };
    size = 0;
  };
}

decoding-IsServing : IsServing decoding [] [] [] (200 ∷ [])
decoding-IsServing = record {
  pool = server-IsServing.pool;
  queue = record {
    next_chain = refl;
    prev_chain = refl;
    apart = tt;
    distinct = tt;
    head_live = refl;
    live = tt;
    counted = refl;
    unlocked = refl;
  };
  cells = (refl, tt);
  sentinel = ((λ e. omega arith), tt);
  messages = (message-IsMessage, tt);
}

-- no message at all
abbrev idle : Server
idle = record decoding {
  obd_pool = record {
    heap = record { size = λ p. if p == 100 then some 16 else none; next = λ p. 0 };
    pool = record { head = 100; block_size = 600; first_available = 0 };
  };
}

idle-IsServing : IsServing idle [] [] [] []
idle-IsServing = record {
  pool = record {
    chain = refl;
    distinct = tt;
    sized = tt;
    room = omega arith;
    null_free = refl;
    head_live = refl;
    head_out = tt;
    owned = λ p out apart. ground arith;
  };
  queue = decoding-IsServing.queue;
  cells = tt;
  sentinel = tt;
  messages = tt;
}

frame-served_example :
    (p : ℕ) × (t u v : Server) × (pool : ThreadPool) × (free : List ℕ) × (read_func_cb
        (some 300)
        false
        5
        (bytes (chars (frame payload)))
        idle
      ≡ ok tt t)
    × (dispatch all_ok t ≡ ok false u)
    × (thread_round u.thread_pool ≡ take (task_of 1 p) pool)
    × (decode_thread 128 p (record u { thread_pool = pool })
        ≡ ok ((0, 0x12) ∷ (1, 0x34) ∷ (2, 0x56) ∷ (3, 0x78) ∷ []) v)
    × IsServing v free [] [] []
unfolding escape chars frame
frame-served_example =
    frame-served 300 5 0x12 0x34 0x56 0x78 [] idle [] idle-IsServing refl workers-IsRing refl refl
      refl (omega arith) (λ e. omega arith) refl refl (λ e. omega arith) (omega arith) (omega arith)

read_func_cb-gone_example :
    (t : Server) × (bs' : List ℕ) × (read_func_cb (some 300) false 5 (bytes []) server ≡ ok tt t)
    × IsServing t bs' [] (200 ∷ []) []
    × IsWatching t [] (21 ∷ [])
    × (t.log ≡ close 5 ∷ stop 21 ∷ [])
    × SameTasks server t
read_func_cb-gone_example =
    read_func_cb-gone 300 server [] (200 ∷ []) [] [] 5 [] [] server-IsServing server-IsWatching
      (λ e. omega arith) refl refl (λ e. omega arith)
