-- ===== src/Earlier/Tests.antt =====
-- The theorems at concrete values.
use footprints_ev.Base.{ℕ, ◌≡◌, refl, false, Option, some, none, List, [], ◌∷◌, ◌==◌, if◌then◌else◌}
use footprints_ev.Obd.Escape.{chars, frame, escape}
use footprints_ev.Earlier.Client.{greeting}
use footprints_ev.Earlier.Driver.{Driver, ev_accept_cb}
use footprints_ev.Earlier.Network.{Network}

-- all NULL, as a static object
abbrev unset : Network
unset = record {
  socket = none;
  address = none;
  init = none;
  addr_init = none;
  socket_init = none;
  socket_bind = none;
  socket_listen = none;
  release = none;
}

-- the frame of a command 2, unescaped
greeting-frame :
    greeting ≡ chars (frame (2 ∷ 0x12 ∷ 0x34 ∷ 0x56 ∷ 0x78 ∷ 1 ∷ 2 ∷ 3 ∷ 4 ∷ 0x20 ∷ []))
unfolding chars frame escape
greeting-frame = refl

abbrev later : List (Option ℕ)
later = []

abbrev answer : List ℕ
answer = b'O' ∷ b'K' ∷ []

-- one open connection
abbrev driver : Driver
driver = record { libev_list = λ fd. if fd == 5 then 21 else 0; live = λ p. p == 21; log = [] }

no_memory : ev_accept_cb 20480 none false (some 5) driver ≡ some driver
unfolding ev_accept_cb
no_memory = refl
