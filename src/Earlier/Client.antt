-- ===== src/Earlier/Client.antt =====
-- client.c: `thread_func`, which sends one message and shows the answer.
use footprints_ev.Base.{
  ℕ, ◌≡◌, refl, true, false, Option, none, some, List, [], ◌∷◌, ◌++◌, map, arith, length, replicate,
  drop, set, ltb, if◌then◌else◌, ◌>>=◌, ◌%◌, ap, le→ltb_false,
}
use footprints_ev.Base.Distinct.{All}
use footprints_ev.Earlier.Network.{
  Network, network_init, network_address_init, network_socket_init, is_negative,
}

-- the size of `sendbuf` and of `buffer`
abbrev pub chat_size : ℕ
chat_size = 512

-- "BB02123456780102030420EE"
abbrev pub greeting : List ℕ
greeting =
    b'B' ∷ b'B' ∷ b'0' ∷ b'2' ∷ b'1' ∷ b'2' ∷ b'3' ∷ b'4' ∷ b'5' ∷ b'6' ∷ b'7' ∷ b'8' ∷ b'0' ∷ b'1'
    ∷ b'0' ∷ b'2' ∷ b'0' ∷ b'3' ∷ b'0' ∷ b'4' ∷ b'2' ∷ b'0' ∷ b'E' ∷ b'E' ∷ []

-- `memset` and `sprintf`
abbrev pub sendbuf : List ℕ
sendbuf = greeting ++ (0 ∷ replicate 487 0)

-- an open descriptor that nothing refers to any more
abbrev pub dropped : Option ℕ → List ℕ → List ℕ
dropped none passed = passed
dropped (some fd) passed = fd ∷ passed

-- The loop over `socket_init`, with the results of the successive calls: the descriptors that it passes over, which
-- stay open, and the socket; `none` where it is still in the loop after the last of them.
unfoldable pub socket_loop : List (Option ℕ) → Network → Option (List ℕ × Network)
unfolding network_socket_init
socket_loop [] net = none
socket_loop (result ∷ results) net =
    let (status, net) = network_socket_init result net in
    let again = socket_loop results net in
    if is_negative status
    then (again >>= λ (passed, net'). some (dropped result passed, net'))
    else some ([], net)

-- `recv` into `buffer` and the NUL behind it: `none` where that is outside `buffer`.
abbrev pub received_into : Option (List ℕ) → Option (List ℕ)
received_into none = none
received_into (some bs) =
    if ltb (length bs) chat_size
    then some (set (bs ++ drop (length bs) (replicate chat_size 0)) (length bs) 0)
    else none

-- `waiting`: still in the loop. `fault`: a write outside `buffer`. `done`: what was sent, what is in `buffer`, and the
-- descriptors that stay open.
pub data Outcome : Type 0 where
  waiting : Outcome
  fault : Outcome
  done : List ℕ → List ℕ → List ℕ → Outcome

abbrev pub shown : List ℕ → Option (List ℕ) → Outcome
shown passed none = fault
shown passed (some buffer) = done sendbuf buffer passed

abbrev pub after_loop : Option (List ℕ) → Option (List ℕ × Network) → Outcome
after_loop answer none = waiting
after_loop answer (some (passed, net)) = shown passed (received_into answer)

-- `thread_func`, with the results of `socket` and of `recv`; that of `connect` is not looked at.
unfoldable pub thread_func : List (Option ℕ) → Option (List ℕ) → Network → Outcome
unfolding socket_loop network_address_init network_init
thread_func sockets answer net =
    after_loop answer (socket_loop sockets (network_address_init (network_init net).1))

-- a descriptor whose last byte reads as a negative number
abbrev pub LooksNegative : ℕ → Type 0
LooksNegative fd = is_negative (fd % 256) ≡ true

loop-passes_over :
    (passed : List ℕ) (fd : ℕ) (later : List (Option ℕ)) (net : Network)
    → All LooksNegative passed
    → is_negative (fd % 256) ≡ false
    → socket_loop (map some passed ++ (some fd ∷ later)) net
      ≡ some (passed, record net { socket = some fd })
unfolding socket_loop
loop-passes_over [] fd later net skip good = rw good refl
loop-passes_over (d ∷ passed) fd later net (negative, skip) good =
    rw (negative, loop-passes_over passed fd later (record net { socket = some d }) skip good) refl

-- `thread_func` keeps the first descriptor whose last byte is below 128. Each one before it, with a last byte from 128
-- on, is taken for an error and stays open. An answer of fewer than 512 bytes is shown, one of 512 is ended outside `buffer`.
pub thread_func-passes_over :
    (passed : List ℕ) (fd : ℕ) (later : List (Option ℕ)) (bs : List ℕ) (net : Network)
    → All LooksNegative passed
    → is_negative (fd % 256) ≡ false
    → (thread_func (map some passed ++ (some fd ∷ later)) (some bs) net
        ≡ shown passed (received_into (some bs)))
      × (length bs ≡ chat_size → received_into (some bs) ≡ none)
unfolding thread_func
thread_func-passes_over passed fd later bs net skip good = (
  ap (after_loop (some bs)) (loop-passes_over passed fd later _ skip good),
  λ full. rw (le→ltb_false (length bs) chat_size (omega arith)) refl,
)
