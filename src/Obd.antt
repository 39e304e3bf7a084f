-- ===== src/Obd.antt =====
-- OBD_struct.h: the message buffer `OBD_t` and the functions that decode it. The `list` member is a
-- cell of the heap of `Mq`. `char` pointers into the buffer are offsets into its bytes.
pub mod Convert
pub mod Endless
pub mod Bounds
pub mod Escape
pub mod Length
pub mod RoundTrip
mod Tests
pub mod CheckSum
pub mod Plain
use footprints_ev.Base.{
  ℕ, zero, suc, ◌+◌, ◌-◌, ◌%◌, Bool, true, false, ◌||◌, Option, none, some, List, [], ◌∷◌, ◌++◌,
  ltb, leb, ◌==◌, ◌>>=◌, if◌then◌else◌, get_elem?, get_or, set, replicate,
}
use footprints_ev.CString.{strstr}
use footprints_ev.Hex.{str2hex}

abbrev pub buf_size : ℕ
buf_size = 256

pub record Obd : Type 0 where
  pub data_bytes : List ℕ
  pub data_length : ℕ
  pub hex : List ℕ
  pub id : ℕ

-- All members but `list` are bytes and lie one behind the other: what a pointer into `data` reads.
abbrev pub image : Obd → List ℕ
image o = o.data_bytes ++ (o.data_length ∷ o.hex ++ (o.id ∷ []))

-- A run of a loop on fuel: `fault` is a read outside the object.
pub data Run {ℓ} (A : Type ℓ) : Type ℓ where
  finished : A → Run A
  fault : Run A
  out_of_fuel : Run A

abbrev pub byte_at : Obd → ℕ → Option ℕ
byte_at o p = get_elem? (image o) p

-- the byte of two digits at an offset
abbrev pub pair_at : Obd → ℕ → Option ℕ
pair_at o p = do m ← byte_at o p; n ← byte_at o (p + 1); some (str2hex m n)

-- `client_id`: the four bytes of `head.id`, behind `head` and `cmd`
abbrev pub client_id : Obd → Option (List (ℕ × ℕ))
client_id o = do
  a ← get_elem? o.hex 2
  b ← get_elem? o.hex 3
  c ← get_elem? o.hex 4
  d ← get_elem? o.hex 5
  some ((0, a) ∷ (1, b) ∷ (2, c) ∷ (3, d) ∷ [])

unfoldable pub get_cmd : Obd → Option ℕ
get_cmd o = do m ← get_elem? o.data_bytes 2; n ← get_elem? o.data_bytes 3; some (str2hex m n)

abbrev pub text_begin : List ℕ
text_begin = b'B' ∷ b'B' ∷ []

abbrev pub text_end : List ℕ
text_end = b'E' ∷ b'E' ∷ []

-- `u8_t` counters
abbrev pub add_u8 : ℕ → ℕ → ℕ
add_u8 a b = (a + b) % 256

abbrev pub put_hex : Obd → ℕ → ℕ → Obd
put_hex o j tmp = record o { hex = set o.hex j tmp }

-- One round of the loop of `OBD_filter_escape_and_transfer_to_hex`: the next `j` and `flag`.
-- After an escape both digits are `begin[i+1]`, as in the source.
unfoldable pub convert_step : ℕ → ℕ → ℕ → Bool → Obd → Option (ℕ × Bool × Obd)
convert_step begin i j false o = do
  m ← byte_at o (begin + i)
  n ← byte_at o (begin + (i + 1))
  let tmp = str2hex m n
  if tmp == 0xAA then some (j, true, o) else some (add_u8 j 1, false, put_hex o j tmp)
convert_step begin i j true o = do
  n ← byte_at o (begin + (i + 1))
  some (add_u8 j 1, false, put_hex o j (str2hex n n))

unfoldable pub convert_loop : ℕ → ℕ → ℕ → ℕ → Bool → Obd → Run (Bool × Obd)
convert_loop zero begin i j flag o = out_of_fuel
convert_loop (suc fuel) begin i j flag o = elim (ltb i o.data_length) [
  | false ↦ finished (true, o)
  | true ↦ elim (convert_step begin i j flag o) [
    | none ↦ fault
    | some (j', flag', o') ↦ convert_loop fuel begin (add_u8 i 2) j' flag' o'
  ]
]

abbrev pub convert_between : ℕ → Obd → Option ℕ → Option ℕ → Run (Bool × Obd)
convert_between fuel o none end = finished (false, o)
convert_between fuel o (some begin) none = finished (false, o)
convert_between fuel o (some begin) (some end) =
    if ltb end begin then finished (false, o) else convert_loop fuel begin 0 0 false o

-- `OBD_filter_escape_and_transfer_to_hex`
unfoldable pub filter_escape : ℕ → Obd → Run (Bool × Obd)
filter_escape fuel o =
    convert_between fuel o (strstr text_begin (image o)) (strstr text_end (image o))

-- The loop of `OBD_check_sum`, up to `len`.
unfoldable pub sum_loop : ℕ → ℕ → ℕ → ℕ → Bool → ℕ → Obd → Run ℕ
sum_loop zero len begin i flag sum o = out_of_fuel
sum_loop (suc fuel) len begin i flag sum o = elim (leb (i + 2) len) [
  | false ↦ finished sum
  | true ↦ elim flag [
    | false ↦ elim (pair_at o (begin + i)) [
      | none ↦ fault
      | some tmp ↦
          let escape = sum_loop fuel len begin (add_u8 i 2) true sum o in
          let plain = sum_loop fuel len begin (add_u8 i 2) false (add_u8 sum tmp) o in
          if tmp == 0xAA then escape else plain
    ]
    | true ↦ elim (byte_at o (begin + (i + 1))) [
      | none ↦ fault
      | some n ↦ sum_loop fuel len begin (add_u8 i 2) false (add_u8 sum (str2hex n n)) o
    ]
  ]
]

-- `len` is 0 when the loop begins: nothing assigns it.
abbrev pub sum_len : ℕ
sum_len = 0

abbrev pub compare_sum : Run ℕ → Option ℕ → Run Bool
compare_sum (finished sum) (some tmp) = finished (tmp == sum % 256)
compare_sum (finished sum) none = fault
compare_sum fault tmp = fault
compare_sum out_of_fuel tmp = out_of_fuel

-- `end` is two characters in front of the EE, or two below NULL, which is no address of the buffer.
abbrev pub check_between : ℕ → Obd → Option ℕ → Option ℕ → Run Bool
check_between fuel o none ee = finished false
check_between fuel o (some begin) none = fault
check_between fuel o (some begin) (some ee) =
    if ltb ee (begin + 2)
    then finished false
    else compare_sum (sum_loop fuel sum_len begin 0 false 0 o) (pair_at o (ee - 2))

-- `OBD_check_sum`
unfoldable pub check_sum : ℕ → Obd → Run Bool
unfolding sum_loop
check_sum fuel o = check_between fuel o (strstr text_begin (image o)) (strstr text_end (image o))

-- `OBD_decode`: the bytes of `client_id` that it prints, each with its index.
unfoldable pub decode : Obd → Option (List (ℕ × ℕ))
decode o = do cmd ← get_elem? o.hex 1; if cmd == 0x02 then client_id o else some []

-- `OBD_decode1`: the command that it prints
abbrev pub decode1 : Obd → Option ℕ
decode1 o = get_elem? o.hex 1

-- the two spellings of the escape that `have_escope` looks for
abbrev pub escape_text : List ℕ
escape_text = b'A' ∷ b'A' ∷ []

abbrev pub small_escape_text : List ℕ
small_escape_text = b'a' ∷ b'a' ∷ []

-- a pointer that is not NULL
abbrev pub is_found : Option ℕ → Bool
is_found none = false
is_found (some at) = true

-- `have_escope`, on the bytes from `src` on: 1 or 0
unfoldable pub have_escope : List ℕ → Bool
have_escope src = is_found (strstr escape_text src) || is_found (strstr small_escape_text src)
