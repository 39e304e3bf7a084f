-- ===== src/Wire/Fit.antt =====
-- The structures against the buffer that they are read from, and the numbers against their names.
use footprints_ev.Base.{
  ◌>>=◌, ℕ, zero, suc, ◌+◌, ◌≤◌, ◌≡◌, refl, Bool, true, false, ◌&&◌, Option, none, some, List, [],
  ◌∷◌, arith, length, leb, get_elem?, get_elem?-eq-get_or,
}
use footprints_ev.Base.Distinct.{All}
use footprints_ev.Obd.{Obd, client_id}
use footprints_ev.Obd.Bounds.{IsSized}
use footprints_ev.Wire.{Layout, round_up, end_of, size_of, placed, is_wide, head}
use footprints_ev.Wire.Commands.{commands}
use footprints_ev.Wire.Ids.{Enumerator, cmd_id, cmd22_id}

pub round_up-le : (wide : Bool) (n : ℕ) → n ≤ round_up wide n
round_up-le true n = omega arith
round_up-le false n = omega arith

end_of-le : (n : ℕ) (ms : Layout) → n ≤ end_of n ms
end_of-le n [] = omega arith
end_of-le n (m ∷ ms) =
    omega (arith, round_up-le m.wide n, end_of-le (round_up m.wide n + m.size) ms)

-- every member ends before the end of the structure
placed-inside :
    (n size : ℕ) (ms : Layout) → end_of n ms ≤ size → All (λ m. m.0 + m.1 ≤ size) (placed n ms)
placed-inside n size [] h = tt
placed-inside n size (m ∷ ms) h = (
  omega (arith, end_of-le (round_up m.wide n + m.size) ms),
  placed-inside (round_up m.wide n + m.size) size ms h,
)

abbrev all_fit : ℕ → List Layout → Bool
all_fit size [] = true
all_fit size (ms ∷ mss) = leb (size_of ms) size && all_fit size mss

all_fit-inside :
    (size : ℕ) (mss : List Layout)
    → all_fit size mss ≡ true
    → All (λ ms. All (λ m. m.0 + m.1 ≤ size) (placed 0 ms)) mss
all_fit-inside size [] h = tt
all_fit-inside size (ms ∷ mss) h =
    let fits : size_of ms ≤ size = ground arith in
    let rest : all_fit size mss ≡ true = ground arith in
    (
      placed-inside 0 size ms (omega (arith, round_up-le (is_wide ms) (end_of 0 ms))),
      all_fit-inside size mss rest,
    )

-- In a buffer of the declared sizes, every member of every command structure, read through a pointer
-- to `hex`, lies inside `hex`.
commands-inside :
    (o : Obd) → IsSized o → All (λ ms. All (λ m. m.0 + m.1 ≤ length o.hex) (placed 0 ms)) commands
commands-inside o s = rw s.hex_size (all_fit-inside 256 commands refl)

-- the loop over a member: its bytes, each with its index, from the index `i` on
abbrev pub member_bytes : List ℕ → ℕ → ℕ → ℕ → Option (List (ℕ × ℕ))
member_bytes l offset i zero = some []
member_bytes l offset i (suc n) = do
  v ← get_elem? l (offset + i)
  rest ← member_bytes l offset (suc i) n
  some ((i, v) ∷ rest)

-- the member with a number, in a structure with placed members
abbrev pub member_at : List (ℕ × ℕ) → ℕ → List ℕ → Option (List (ℕ × ℕ))
member_at ms k l = elim (get_elem? ms k) [
  | none ↦ none
  | some (offset, size) ↦ member_bytes l offset 0 size
]

-- The bytes that `OBD_decode` prints as the client's id are the member `id` of `head_t`, at its offset in
-- the structure that `hex` is read through, and the loop over it stays inside `hex`.
pub client_id-member :
    (o : Obd)
    → IsSized o
    → (client_id o ≡ member_at (placed 0 head) 2 o.hex)
      × ((out : List (ℕ × ℕ)) × (client_id o ≡ some out))
client_id-member o s =
    let size = s.hex_size in
    rw
      (
        get_elem?-eq-get_or o.hex 2 0 (omega arith),
        get_elem?-eq-get_or o.hex 3 0 (omega arith),
        get_elem?-eq-get_or o.hex 4 0 (omega arith),
        get_elem?-eq-get_or o.hex 5 0 (omega arith),
      )
      (refl, (_, refl))

-- The values of the enumerators: what is given, and else one more than the one before.
abbrev pub values : ℕ → List Enumerator → List ℕ
values next [] = []
values next (e ∷ es) = elim e.given [
  | none ↦ next ∷ values (suc next) es
  | some v ↦ v ∷ values (suc v) es
]

abbrev pub names : List Enumerator → List ℕ
names [] = []
names (e ∷ es) = e.named ∷ names es

abbrev pub ascends : List ℕ → Bool
ascends [] = true
ascends (x ∷ []) = true
ascends (x ∷ y ∷ xs) = leb (suc x) y && ascends (y ∷ xs)

-- In both enumerations each value is the number that its name says, and the values ascend, so that no two
-- are equal.
pub ids-named :
    (values 0 cmd_id ≡ names cmd_id)
    × (values 0 cmd22_id ≡ names cmd22_id)
    × (ascends (values 0 cmd_id) ≡ true)
    × (ascends (values 0 cmd22_id) ≡ true)
ids-named = (refl, refl, refl, refl)
