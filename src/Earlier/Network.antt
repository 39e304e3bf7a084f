-- ===== src/Earlier/Network.antt =====
-- OBD_network.h: a socket with its methods as function pointers. What the socket calls return is a
-- parameter; an `int` of -1 is `none`.
use footprints_ev.Base.{ℕ, ◌%◌, Bool, Option, none, some, List, [], ◌∷◌, leb, if◌then◌else◌}

-- `SERVER_PORT`
abbrev pub server_port : ℕ
server_port = 11223

-- `SERVER_ADDR`, as the four bytes that `inet_addr` makes of it
abbrev pub server_addr : List ℕ
server_addr = 192 ∷ 168 ∷ 0 ∷ 115 ∷ []

-- the functions that a pointer may point to
pub data Method : Type 0 where
  to_init to_address_init to_socket_init to_socket_bind to_release : Method

pub record Address : Type 0 where
  pub addr : List ℕ
  pub port : ℕ

-- `network_t`; a method that is `none` is NULL.
pub record Network : Type 0 where
  pub socket : Option ℕ
  pub address : Option Address
  pub init : Option Method
  pub addr_init : Option Method
  pub socket_init : Option Method
  pub socket_bind : Option Method
  pub socket_listen : Option Method
  pub release : Option Method

-- an `int` as `s8_t`: its last byte, negative from 128 on
abbrev pub to_s8 : Option ℕ → ℕ
to_s8 none = 255
to_s8 (some n) = n % 256

abbrev pub is_negative : ℕ → Bool
is_negative b = leb 128 b

unfoldable pub network_address_init : Network → Network
network_address_init n = record n {
  address = some (record { addr = server_addr; port = server_port });
}

unfoldable pub network_socket_init : Option ℕ → Network → ℕ × Network
network_socket_init result n = (to_s8 result, record n { socket = result })

-- the result of `bind`: 0, or -1
unfoldable pub network_socket_bind : Bool → Network → ℕ
network_socket_bind bound n = if bound then 0 else to_s8 none

unfoldable pub network_init : Network → ℕ × Network
network_init n = (
  0,
  record n {
    init = some to_init;
    socket_init = some to_socket_init;
    addr_init = some to_address_init;
    socket_bind = some to_socket_bind;
    release = some to_release;
  },
)

-- what the calls through the pointers find
pub record Calls : Type 0 where
  pub socket_result : Option ℕ
  pub bound : Bool

-- A call through a pointer, with its result where it has one: `none` through NULL.
unfoldable pub invoke : Calls → Option Method → Network → Option (ℕ × Network)
unfolding network_address_init network_socket_init network_socket_bind network_init
invoke calls none n = none
invoke calls (some to_init) n = some (network_init n)
invoke calls (some to_address_init) n = some (0, network_address_init n)
invoke calls (some to_socket_init) n = some (network_socket_init calls.socket_result n)
invoke calls (some to_socket_bind) n = some (network_socket_bind calls.bound n, n)
invoke calls (some to_release) n = some (0, n)
