-- ===== src/Wire/Ids.antt =====
-- OBD_cmd_id.h: the numbers of the commands.
use footprints_ev.Base.{ℕ, Option, none, some, List, [], ◌∷◌}

-- An enumerator: the number that its name says, and the value that the source gives it, if any.
pub record Enumerator : Type 0 where
  pub named : ℕ
  pub given : Option ℕ

abbrev pub counted : ℕ → Enumerator
counted n = record { named = n; given = none }

abbrev pub fixed : ℕ → ℕ → Enumerator
fixed n v = record { named = n; given = some v }

abbrev pub cmd_id : List Enumerator
cmd_id =
    fixed 0x00 0x00
    ∷ counted 0x01
    ∷ counted 0x02
    ∷ counted 0x03
    ∷ fixed 0x07 0x07
    ∷ counted 0x08
    ∷ fixed 0x10 0x10
    ∷ fixed 0x13 0x13
    ∷ counted 0x14
    ∷ counted 0x15
    ∷ counted 0x16
    ∷ counted 0x17
    ∷ counted 0x18
    ∷ counted 0x19
    ∷ counted 0x1a
    ∷ counted 0x1b
    ∷ fixed 0x21 0x21
    ∷ counted 0x22
    ∷ fixed 0x30 0x30
    ∷ fixed 0x32 0x32
    ∷ counted 0x33
    ∷ counted 0x34
    ∷ fixed 0x42 0x42
    ∷ counted 0x43
    ∷ fixed 0x50 0x50
    ∷ []

abbrev pub cmd22_id : List Enumerator
cmd22_id =
    fixed 0x01 0x01
    ∷ counted 0x02
    ∷ counted 0x03
    ∷ counted 0x04
    ∷ counted 0x05
    ∷ counted 0x06
    ∷ counted 0x07
    ∷ counted 0x08
    ∷ counted 0x09
    ∷ fixed 0x10 0x10
    ∷ counted 0x11
    ∷ counted 0x12
    ∷ counted 0x13
    ∷ counted 0x14
    ∷ counted 0x15
    ∷ counted 0x16
    ∷ counted 0x17
    ∷ counted 0x18
    ∷ counted 0x19
    ∷ fixed 0x20 0x20
    ∷ counted 0x21
    ∷ counted 0x22
    ∷ counted 0x23
    ∷ counted 0x24
    ∷ counted 0x25
    ∷ counted 0x26
    ∷ counted 0x27
    ∷ counted 0x28
    ∷ counted 0x29
    ∷ fixed 0x30 0x30
    ∷ counted 0x31
    ∷ counted 0x32
    ∷ counted 0x33
    ∷ counted 0x34
    ∷ counted 0x35
    ∷ counted 0x36
    ∷ counted 0x37
    ∷ counted 0x38
    ∷ counted 0x39
    ∷ fixed 0x40 0x40
    ∷ []
