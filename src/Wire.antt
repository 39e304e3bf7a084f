-- ===== src/Wire.antt =====
-- OBD_structs_new.h: the structures that a decoded message is read through, as C lays them out with
-- pointers of 8 bytes.
pub mod Commands
pub mod Responses
pub mod Ids
pub mod Fit
pub mod Fields
mod Tests
use footprints_ev.Base.{ℕ, ◌+◌, ◌*◌, ◌/◌, Bool, true, false, ◌||◌, List, [], ◌∷◌, if◌then◌else◌}

-- A member: its size, and whether it is aligned to 8 bytes. All others are aligned to one.
pub record Member : Type 0 where
  pub size : ℕ
  pub wide : Bool

abbrev pub Layout : Type 0
Layout = List Member

abbrev pub round_up : Bool → ℕ → ℕ
round_up true n = (n + 7) / 8 * 8
round_up false n = n

abbrev pub is_wide : Layout → Bool
is_wide [] = false
is_wide (m ∷ ms) = m.wide || is_wide ms

-- the end of the last member, from an offset on
abbrev pub end_of : ℕ → Layout → ℕ
end_of n [] = n
end_of n (m ∷ ms) = end_of (round_up m.wide n + m.size) ms

-- `sizeof`
abbrev pub size_of : Layout → ℕ
size_of ms = round_up (is_wide ms) (end_of 0 ms)

-- the offset of each member, with its size
abbrev pub placed : ℕ → Layout → List (ℕ × ℕ)
placed n [] = []
placed n (m ∷ ms) = (round_up m.wide n, m.size) ∷ placed (round_up m.wide n + m.size) ms

-- arrays of `u8_t`, of pointers and of structures
abbrev pub bytes : ℕ → Member
bytes n = record { size = n; wide = false }

abbrev pub pointers : ℕ → Member
pointers n = record { size = n * 8; wide = true }

abbrev pub structs : ℕ → Layout → Member
structs n ms = record { size = n * size_of ms; wide = is_wide ms }

abbrev pub head : Layout
head = bytes 1 ∷ bytes 1 ∷ bytes 4 ∷ []

abbrev pub head_no_id : Layout
head_no_id = bytes 1 ∷ bytes 1 ∷ []

abbrev pub end : Layout
end = bytes 1 ∷ bytes 1 ∷ []

abbrev pub cmd : Layout
cmd = structs 1 head ∷ structs 1 end ∷ []

abbrev pub response : Layout
response = structs 1 head ∷ structs 1 end ∷ []

abbrev pub param42 : Layout
param42 = bytes 2 ∷ bytes 1 ∷ pointers 1 ∷ []

abbrev pub bstation_info : Layout
bstation_info = bytes 2 ∷ bytes 2 ∷ bytes 1 ∷ []
