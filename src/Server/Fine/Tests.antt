-- ===== src/Server/Fine/Tests.antt =====
-- A callback that is in the middle of its work, and a round of the dispatcher behind it.
use footprints_ev.Base.{◌≡◌, refl, true, false, none, some, List, [], ◌∷◌, arith}
use footprints_ev.Server.Fine.{Fine, Act, ends_read, polls, offers, fine_run}
use footprints_ev.Server.Fine.Runs.{IsFineSafe, lost_in, fine_run-IsSafe}
use footprints_ev.Server.Messages.{bytes}
use footprints_ev.Server.Sample.{server, server-IsServing, server-IsWatching, workers-IsRing}
use footprints_ev.Server.System.{idle}
use footprints_ev.Server.System.Safe.{Places}

-- the event loop holds buffer 200, and nothing is queued
abbrev begun : Fine
begun = record {
  system = record {
    server = record server {
      obd_mq = record server.obd_mq {
        heap = record { live = λ p. true; next = λ p. p; prev = λ p. p };
        size = 0;
      };
    };
    hands = idle ∷ idle ∷ [];
  };
  reading = some 200;
  carrying = none;
}

abbrev nowhere : Places
nowhere = record { fds = 5 ∷ []; spare = []; free = []; queued = []; waiting = []; lost = [] }

begun-IsFineSafe : IsFineSafe begun nowhere
begun-IsFineSafe = record {
  serving = record {
    pool = server-IsServing.pool;
    queue = record {
      next_chain = refl;
      prev_chain = refl;
      apart = tt;
      distinct = tt;
      head_live = refl;
      live = tt;
      counted = refl;
      unlocked = refl;
    };
    cells = server-IsServing.cells;
    sentinel = server-IsServing.sentinel;
    messages = server-IsServing.messages;
  };
  watching = record {
    pool = server-IsWatching.pool;
    distinct = server-IsWatching.distinct;
    inside = server-IsWatching.inside;
    empty = server-IsWatching.empty;
  };
  ring = workers-IsRing;
  unlocked = refl;
  on = refl;
  tasks = refl;
  flag = refl;
}

abbrev acts : List Act
acts = ends_read false 5 (bytes (b'B' ∷ b'B' ∷ [])) ∷ polls ∷ offers ∷ []

fine_run-IsSafe_example :
    (g : Fine) × (m : Places) × (fine_run acts begun ≡ some g)
    × IsFineSafe g m
    × (m.lost ≡ lost_in acts begun [])
fine_run-IsSafe_example =
    fine_run-IsSafe acts begun nowhere begun-IsFineSafe
      (((omega arith), (λ e. omega arith)), λ g did. (tt, λ g' did'. (tt, λ g'' did''. tt)))
