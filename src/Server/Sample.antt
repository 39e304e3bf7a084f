-- ===== src/Server/Sample.antt =====
-- A small server: one connection, one message queued.
use footprints_ev.Base.{
  ℕ, refl, true, false, some, none, List, [], ◌∷◌, ◌++◌, arith, replicate, ◌==◌, if◌then◌else◌,
}
use footprints_ev.CString.{strlen}
use footprints_ev.Obd.{Obd}
use footprints_ev.Obd.Bounds.{IsMessage}
use footprints_ev.Obd.Escape.{escape, chars, frame}
use footprints_ev.Obd.RoundTrip.{Holds}
use footprints_ev.Server.{Server, Blocks}
use footprints_ev.Server.Watchers.{IsWatching}
use footprints_ev.Server.Serving.{IsServing}
use footprints_ev.ThreadPool.{ThreadPool, running}
use footprints_ev.ThreadPool.Ring.{IsRing}
use footprints_ev.ThreadPool.Enqueue.{task_of}

abbrev pub payload : List ℕ
payload = 2 ∷ 0x12 ∷ 0x34 ∷ 0x56 ∷ 0x78 ∷ []

abbrev pub text : List ℕ
text =
    b'B' ∷ b'B' ∷ b'0' ∷ b'2' ∷ b'1' ∷ b'2' ∷ b'3' ∷ b'4' ∷ b'5' ∷ b'6' ∷ b'7' ∷ b'8' ∷ b'E' ∷ b'E'
    ∷ []

abbrev pub message : Obd
message = record {
  data_bytes = text ++ replicate 242 0;
  data_length = 14;
  hex = replicate 256 0;
  id = 2;
}

pub message-IsMessage : IsMessage message
unfolding strlen
message-IsMessage = record {
  sized = record { data_size = refl; hex_size = refl };
  small = omega arith;
  text = refl;
}

pub message-Holds : Holds payload (replicate 241 0) message
unfolding escape chars frame
message-Holds = record {
  text = refl;
  counted = refl;
  fits = omega arith;
  sized = record { data_size = refl; hex_size = refl };
}

-- a pool with one block in use
abbrev pub one_block : ℕ → ℕ → Blocks
one_block head block = record {
  heap = record {
    size = λ p. if p == head then some 16 else if p == block then some 600 else none;
    next = λ p. 0;
  };
  pool = record { head = head; block_size = 600; first_available = 0 };
}

abbrev pub workers : ThreadPool
workers = record {
  queue = task_of 1 9 ∷ [];
  thread_count = 8;
  queue_size = 1;
  head = 0;
  tail = 0;
  count = 0;
  shutdown = running;
  started = 8;
  locked = false;
}

-- one connection, on descriptor 5, and one message queued
abbrev pub server : Server
server = record {
  libev_list = λ fd. if fd == 5 then 21 else 0;
  ev_pool = one_block 10 21;
  obd_pool = one_block 100 200;
  obds = λ p. message;
  obd_mq = record {
    heap = record {
      live = λ p. true;
      next = λ p. if p == 1 then 200 else 1;
      prev = λ p. if p == 1 then 200 else 1;
    };
    list = 1;
    size = 1;
    locked = false;
  };
  thread_pool = workers;
  mq_flag = false;
  log = [];
}

pub server-IsWatching : IsWatching server (5 ∷ []) []
server-IsWatching = record {
  pool = record {
    chain = refl;
    distinct = (tt, tt);
    sized = (refl, tt);
    room = omega arith;
    null_free = refl;
    head_live = refl;
    head_out = ((λ e. omega arith), tt);
    owned = λ p out apart. ground arith;
  };
  distinct = (tt, tt);
  inside = (omega arith, tt);
  empty = λ fd o. ground arith;
}

pub server-IsServing : IsServing server [] [] (200 ∷ []) []
server-IsServing = record {
  pool = record {
    chain = refl;
    distinct = (tt, tt);
    sized = (refl, tt);
    room = omega arith;
    null_free = refl;
    head_live = refl;
    head_out = ((λ e. omega arith), tt);
    owned = λ p out apart. ground arith;
  };
  queue = record {
    next_chain = (refl, refl);
    prev_chain = (refl, refl);
    apart = ((λ e. omega arith), tt);
    distinct = (tt, tt);
    head_live = refl;
    live = (refl, tt);
    counted = refl;
    unlocked = refl;
  };
  cells = (refl, tt);
  sentinel = ((λ e. omega arith), tt);
  messages = (message-IsMessage, tt);
}

pub workers-IsRing : IsRing workers
workers-IsRing = record {
  storage = refl;
  head_in = omega arith;
  count_in = omega arith;
  tail_at = refl;
}
