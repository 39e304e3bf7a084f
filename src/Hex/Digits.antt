-- ===== src/Hex/Digits.antt =====
-- Bytes written as two digits, and read back.
use footprints_ev.Base.{
  ℕ, ◌+◌, ◌-◌, ◌/◌, ◌%◌, ◌<◌, ◌≡◌, refl, true, ◌&&◌, arith, ltb, ◌==◌, if◌then◌else◌,
}
use footprints_ev.Base.Table.{holds_upto, holds_upto-at}
use footprints_ev.Hex.{str2hex}

-- the digit of a number below 16, in upper and in lower case
abbrev pub upper : ℕ → ℕ
upper d = if ltb d 10 then d + b'0' else d - 10 + b'A'

abbrev pub lower : ℕ → ℕ
lower d = if ltb d 10 then d + b'0' else d - 10 + b'a'

digit_table :
    holds_upto
      (λ x.
        (str2hex (upper (x / 16)) (upper (x % 16)) == x)
        && (str2hex (lower (x / 16)) (lower (x % 16)) == x))
      256
    ≡ true
unfolding holds_upto str2hex
digit_table = refl

-- `str2hex` reads back every byte from its two digits, in upper case and in lower case.
pub str2hex-digits :
    (x : ℕ)
    → x < 256
    → (str2hex (upper (x / 16)) (upper (x % 16)) ≡ x)
      × (str2hex (lower (x / 16)) (lower (x % 16)) ≡ x)
str2hex-digits x h = ground (arith, holds_upto-at _ 256 x digit_table h)
