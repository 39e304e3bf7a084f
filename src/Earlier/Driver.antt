-- ===== src/Earlier/Driver.antt =====
-- main.c: the callbacks and `main`. OBD_ev_struct.h, which declares `libev_list`, is not in the repository: the number
-- of its slots is a parameter.
pub mod Stale
use footprints_ev.Base.{
  ℕ, zero, suc, ◌+◌, ◌%◌, ◌^◌, ◌-◌, ◌≤◌, ◌<◌, ◌≡◌, ◌≢◌, refl, Bool, true, false, not, Option, none,
  some, List, [], ◌∷◌, ◌++◌, arith, length, replicate, drop, set, ltb, ◌==◌, if◌then◌else◌, ◌>>=◌,
  update,
}
use footprints_ev.Pool.{Ptr, null}
use footprints_ev.Earlier.Network.{Network, Calls, to_s8, network_init, invoke}
use footprints_ev.Server.{max_client}
use footprints_ev.Server.Messages.{Received, failed, bytes}

-- `malloc`'s blocks that are in use, and what the program did to the outside
pub data Effect : Type 0 where
  close : ℕ → Effect
  start : Ptr → ℕ → Effect
  stop : Ptr → Effect
  print : List ℕ → Effect

pub record Driver : Type 0 where
  pub libev_list : ℕ → Ptr
  pub live : Ptr → Bool
  pub log : List Effect

-- `none`: an access outside an object, to memory that was given back, or through a number
abbrev pub Cmd : Type 0
Cmd = Driver → Option Driver

infixl 5 ◌>>◌
abbrev pub ◌>>◌ : Cmd → Cmd → Cmd
c >> d = λ s. c s >>= d

abbrev pub pass : Cmd
pass = some

abbrev pub emit : Effect → Cmd
emit e s = some (record s { log = s.log ++ (e ∷ []) })

-- `free` of a block
abbrev pub free_block : Ptr → Cmd
free_block p s = if s.live p then some (record s { live = update s.live p false }) else none

-- `ev_io_stop`, which writes to the watcher
abbrev pub ev_io_stop : Ptr → Cmd
ev_io_stop p s = if s.live p then emit (stop p) s else none

-- the size of the `buffer` of `ev_read_cb`
abbrev pub line_size : ℕ
line_size = 4096

-- the text that `buffer` holds after `recv` and the NUL: `none` where that is outside `buffer`
abbrev pub line : List ℕ → Option (List ℕ)
line bs =
    if ltb (length bs) line_size
    then some (set (bs ++ drop (length bs) (replicate line_size 0)) (length bs) 0)
    else none

abbrev pub printed : Option (List ℕ) → Cmd
printed none = λ s. none
printed (some buffer) = emit (print buffer)

-- an `int` as `u32_t`
abbrev pub to_u32 : Option ℕ → ℕ
to_u32 none = 2 ^ 32 - 1
to_u32 (some fd) = fd % 2 ^ 32

abbrev pub register : Ptr → ℕ → Cmd
register w fd s =
    (emit (start w fd) >> λ t. some (record t { libev_list = update t.libev_list fd w })) s

module _ (slots : ℕ) where
  abbrev pub on_slot : ℕ → (Ptr → Cmd) → Cmd
  on_slot fd k s = if ltb fd slots then k (s.libev_list fd) s else none

  -- `free_libev`
  unfoldable pub free_libev : ℕ → Cmd
  free_libev fd =
      if ltb max_client fd
      then pass
      else on_slot fd
          λ w. if w == null then pass else emit (close fd) >> ev_io_stop w >> free_block w

  abbrev pub on_data : ℕ → Received → Cmd
  on_data fd failed = pass
  on_data fd (bytes []) = free_libev fd
  on_data fd (bytes (b ∷ bs)) = printed (line (b ∷ bs))

  -- `ev_read_cb` on the watcher of `fd`
  unfoldable pub ev_read_cb : Bool → ℕ → Received → Cmd
  unfolding free_libev
  ev_read_cb error fd result = if error then pass else on_data fd result

  -- After `accept`. Two messages are printed with a `%s` for a number: that of a descriptor that is too large, and
  -- the last one.
  abbrev pub accepted : Ptr → ℕ → Cmd
  accepted w fd =
      if ltb max_client fd
      then (λ s. none)
      else on_slot fd λ slot. if slot == null then (register w fd >> λ s. none) else pass

  -- `ev_accept_cb`, with the semicolon that line 95 means
  unfoldable pub ev_accept_cb : Option Ptr → Bool → Option ℕ → Cmd
  ev_accept_cb none error client s = some s
  ev_accept_cb (some w) error client s =
      (if error then pass else accepted w (to_u32 client))
        (record s { live = update s.live w true })

-- How `main` ends: it returns -1, or calls through NULL, or gets past the set-up.
pub data End : Type 0 where
  returns : End
  through_null : End
  goes_on : Network → End

abbrev pub then_call : Option (ℕ × Network) → (ℕ → Network → End) → End
then_call none k = through_null
then_call (some (status, net)) k = k status net

-- `main` up to the event loop
unfoldable pub main : Calls → Network → End
main calls net =
    let net = (network_init net).1 in
    then_call (invoke calls net.addr_init net) λ _ net.
      then_call (invoke calls net.socket_init net) λ status net.
        if status == 0
        then returns
        else then_call (invoke calls net.socket_bind net) λ status net.
          if not (status == 0)
          then returns
          else then_call (invoke calls net.socket_listen net)
              λ status net. if not (status == 0) then returns else goes_on net

-- With a `network_t` whose listener is NULL, as in a static one, `main` never gets past its set-up, whatever `socket` and
-- `bind` return: it returns where the descriptor's last byte is 0 or `bind` fails, and calls through NULL otherwise.
pub main-stops :
    (calls : Calls) (net : Network)
    → net.socket_listen ≡ none
    → main calls net ≡ (
        if to_s8 calls.socket_result == 0
        then returns
        else if calls.bound
        then through_null
        else returns)
unfolding main invoke
main-stops calls net null' = rw null' (ground arith)
