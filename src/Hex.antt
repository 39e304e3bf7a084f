-- ===== src/Hex.antt =====
-- string_ops.h: two ASCII digits as a byte.
pub mod Digits
use footprints_ev.Base.{
  ℕ, ◌+◌, ◌-◌, ◌*◌, ◌%◌, Bool, ◌&&◌, bit_or, ltb, leb, if◌then◌else◌, Option, none, some,
}

-- A `char` is its byte. One of 128 and more is negative where `char` is signed: it fails both tests
-- either way, and the byte of the result is the same.
unfoldable pub asc2hex : ℕ → ℕ
asc2hex c =
    if leb b'A' c && ltb c b'Z'
    then c - b'A' + 10
    else if leb b'a' c && ltb c b'z'
    then c - b'a' + 10
    else (c + 256 - b'0') % 256

unfoldable pub str2hex : ℕ → ℕ → ℕ
unfolding asc2hex
str2hex m n = bit_or (asc2hex m * 16) (asc2hex n) % 256

-- `check_source`, on a pointer that is NULL or not: `none` where the function ends without a value
abbrev pub check_source : Bool → Option ℕ
check_source is_null = if is_null then some 1 else none
