-- ===== src/Obd/Convert.antt =====
-- What `OBD_filter_escape_and_transfer_to_hex` writes.
use footprints_ev.Base.{
  ℕ, zero, suc, ◌+◌, ◌*◌, ◌≤◌, ◌<◌, ◌≡◌, ◌∙◌, ap, subst, Bool, true, false, some, List, [], ◌∷◌,
  ◌++◌, arith, ◌==◌, if◌then◌else◌, length, get_elem?, set, Bool-cases, inl, inr, lt→ltb,
  le→ltb_false,
}
use footprints_ev.Hex.{str2hex}
use footprints_ev.Obd.{Obd, finished, byte_at, add_u8, put_hex, convert_step, convert_loop}

-- The bytes that a text of digit pairs stands for: AA announces an escaped byte, of which only the
-- second digit counts.
unfoldable pub unescape : Bool → List (ℕ × ℕ) → List ℕ
unescape flag [] = []
unescape true ((m, n) ∷ ps) = str2hex n n ∷ unescape false ps
unescape false ((m, n) ∷ ps) =
    if str2hex m n == 0xAA then unescape true ps else str2hex m n ∷ unescape false ps

-- `hex[j..]` overwritten
abbrev pub write_at : List ℕ → ℕ → List ℕ → List ℕ
write_at hex j [] = hex
write_at hex j (v ∷ vs) = write_at (set hex j v) (j + 1) vs

-- At `pos` of `l` stand the digits of `ps`.
abbrev pub Reads : List ℕ → ℕ → List (ℕ × ℕ) → Type 0
Reads l pos [] = Unit {0}
Reads l pos ((m, n) ∷ ps) =
    (get_elem? l pos ≡ some m) × (get_elem? l (pos + 1) ≡ some n) × Reads l (pos + 2) ps

get_elem?-append :
    (xs ys : List ℕ) (i v : ℕ) → get_elem? xs i ≡ some v → get_elem? (xs ++ ys) i ≡ some v
get_elem?-append [] ys i v e = absurd (cc)
get_elem?-append (x ∷ xs) ys zero v e = e
get_elem?-append (x ∷ xs) ys (suc i) v e = get_elem?-append xs ys i v e

byte_at-data : (o : Obd) (p v : ℕ) → get_elem? o.data_bytes p ≡ some v → byte_at o p ≡ some v
byte_at-data o p v e = get_elem?-append o.data_bytes _ p v e

at_assoc :
    (o : Obd) (begin i n : ℕ)
    → get_elem? o.data_bytes (begin + i + 1) ≡ some n
    → get_elem? o.data_bytes (begin + (i + 1)) ≡ some n
at_assoc o begin i n e =
    subst (λ k. get_elem? o.data_bytes k ≡ some n) {x = begin + i + 1} (omega arith) e

step-false :
    (o : Obd) (begin i j m n : ℕ)
    → get_elem? o.data_bytes (begin + i) ≡ some m
    → get_elem? o.data_bytes (begin + i + 1) ≡ some n
    → convert_step begin i j false o ≡ (
        if str2hex m n == 0xAA
        then some (j, true, o)
        else some (add_u8 j 1, false, put_hex o j (str2hex m n)))
unfolding convert_step
step-false o begin i j m n em en = ground (
  arith,
  byte_at-data o (begin + i) m em,
  byte_at-data o (begin + (i + 1)) n (at_assoc o begin i n en),
)

step-true :
    (o : Obd) (begin i j n : ℕ)
    → get_elem? o.data_bytes (begin + i + 1) ≡ some n
    → convert_step begin i j true o ≡ some (add_u8 j 1, false, put_hex o j (str2hex n n))
unfolding convert_step
step-true o begin i j n en = rw (byte_at-data o (begin + (i + 1)) n (at_assoc o begin i n en))

module _ (fuel begin i j : ℕ) (flag : Bool) (o : Obd) where
  pub convert_loop-end :
      o.data_length ≤ i → convert_loop (suc fuel) begin i j flag o ≡ finished (true, o)
  unfolding convert_loop
  convert_loop-end h = ground (arith, le→ltb_false i o.data_length h)

  pub convert_loop-round :
      (i' j' : ℕ) (flag' : Bool) (o' : Obd)
      → i < o.data_length
      → add_u8 i 2 ≡ i'
      → convert_step begin i j flag o ≡ some (j', flag', o')
      → convert_loop (suc fuel) begin i j flag o ≡ convert_loop fuel begin i' j' flag' o'
  unfolding convert_loop
  convert_loop-round i' j' flag' o' h ei e = rw (convert_loop, lt→ltb i o.data_length h, e, ei)

Reads-next :
    (o : Obd) (begin i : ℕ) (ps : List (ℕ × ℕ))
    → Reads o.data_bytes (begin + i + 2) ps
    → Reads o.data_bytes (begin + (i + 2)) ps
Reads-next o begin i ps r = subst (λ k. Reads o.data_bytes k ps) {x = begin + i + 2} (omega arith) r

pub convert_loop-unescape :
    (ps : List (ℕ × ℕ)) (fuel begin i j : ℕ) (flag : Bool) (o : Obd)
    → length ps < fuel
    → o.data_length < 255
    → o.data_length ≤ i + 2 * length ps
    → i + 2 * length ps ≤ o.data_length + 1
    → j + length ps < 256
    → Reads o.data_bytes (begin + i) ps
    → convert_loop fuel begin i j flag o
      ≡ finished (true, record o { hex = write_at o.hex j (unescape flag ps) })
unfolding unescape
convert_loop-unescape ps zero begin i j flag o f d lo hi jb r = absurd (omega arith)
convert_loop-unescape [] (suc fuel) begin i j flag o f d lo hi jb r =
    convert_loop-end fuel begin i j flag o (omega arith)
convert_loop-unescape ((m, n) ∷ ps) (suc fuel) begin i j true o f d lo hi jb r =
    let o' : Obd = put_hex o j (str2hex n n) in
    let ej : add_u8 j 1 ≡ j + 1 = omega arith in
    let step : convert_step begin i j true o ≡ some (j + 1, false, o') =
      step-true o begin i j n r.1 ∙ ap (λ k. some (k, false, o')) ej in
    convert_loop-round fuel begin i j true o (i + 2) (j + 1) false o' (omega arith) (omega arith)
      step
    ∙ convert_loop-unescape ps fuel begin (i + 2) (j + 1) false o' (omega arith) d (omega arith)
        (omega arith) (omega arith) (Reads-next o begin i ps r.2)
convert_loop-unescape ((m, n) ∷ ps) (suc fuel) begin i j false o f d lo hi jb r =
    elim (Bool-cases (str2hex m n == 0xAA)) [
      | inl escape ↦
          convert_loop-round fuel begin i j false o (i + 2) j true o (omega arith) (omega arith)
            (step-false o begin i j m n r.0 r.1 ∙ rw escape)
          ∙ (convert_loop-unescape ps fuel begin (i + 2) j true o (omega arith) d (omega arith)
                (omega arith) (omega arith) (Reads-next o begin i ps r.2)
              ∙ rw escape)
      | inr plain ↦
          let o' : Obd = put_hex o j (str2hex m n) in
          let ej : add_u8 j 1 ≡ j + 1 = omega arith in
          convert_loop-round fuel begin i j false o (i + 2) (j + 1) false o' (omega arith)
            (omega arith) (step-false o begin i j m n r.0 r.1 ∙ rw (plain, ej))
          ∙ (convert_loop-unescape ps fuel begin (i + 2) (j + 1) false o' (omega arith) d
                (omega arith) (omega arith) (omega arith) (Reads-next o begin i ps r.2)
              ∙ rw plain)
    ]
