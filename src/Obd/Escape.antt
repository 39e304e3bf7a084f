-- ===== src/Obd/Escape.antt =====
-- Frames as the server reads them: BB, the payload with AA before each AA, BB and EE, then EE.
use footprints_ev.Base.{
  ℕ, suc, ◌+◌, ◌/◌, ◌%◌, ◌<◌, ◌≡◌, ◌≢◌, refl, ap, subst, Bool, true, false, ◌||◌, some, List, [],
  ◌∷◌, ◌++◌, arith, ◌==◌, if◌then◌else◌, get_elem?, Bool-cases, not, ne→==_false, inl, inr,
}
use footprints_ev.CString.{strstr, has_prefix}
use footprints_ev.Base.Table.{holds_upto, holds_upto-at}
use footprints_ev.Hex.{str2hex}
use footprints_ev.Hex.Digits.{upper, str2hex-digits}
use footprints_ev.Obd.{text_end}
use footprints_ev.Obd.Convert.{unescape, Reads}

abbrev pub Bytes : List ℕ → Type 0
Bytes [] = Unit {0}
Bytes (x ∷ xs) = (x < 256) × Bytes xs

abbrev pub is_special : ℕ → Bool
is_special x = x == 0xAA || x == 0xBB || x == 0xEE

abbrev pub digits_of : ℕ → ℕ × ℕ
digits_of x = (upper (x / 16), upper (x % 16))

unfoldable pub escape : List ℕ → List (ℕ × ℕ)
escape [] = []
escape (x ∷ xs) =
    if is_special x then digits_of 0xAA ∷ digits_of x ∷ escape xs else digits_of x ∷ escape xs

-- the characters of the digit pairs
unfoldable pub chars : List (ℕ × ℕ) → List ℕ
chars [] = []
chars ((m, n) ∷ ps) = m ∷ n ∷ chars ps

unfoldable pub frame : List ℕ → List (ℕ × ℕ)
unfolding escape
frame xs = digits_of 0xBB ∷ escape xs ++ (digits_of 0xEE ∷ [])

special-aa : str2hex (upper (0xAA / 16)) (upper (0xAA % 16)) ≡ 0xAA
unfolding str2hex
special-aa = refl

double_table :
    holds_upto (λ x. not (is_special x) || str2hex (upper (x % 16)) (upper (x % 16)) == x) 256
    ≡ true
unfolding holds_upto str2hex
double_table = refl

-- the second digit, doubled, is the byte itself for the three bytes that are escaped
special-double :
    (x : ℕ) → x < 256 → is_special x ≡ true → str2hex (upper (x % 16)) (upper (x % 16)) ≡ x
special-double x b h = ground (arith, holds_upto-at _ 256 x double_table b)

plain-ne : (x : ℕ) → is_special x ≡ false → (x == 0xAA) ≡ false
plain-ne x h = ground arith

unescape-escape :
    (xs : List ℕ) (ps : List (ℕ × ℕ))
    → Bytes xs
    → unescape false (escape xs ++ ps) ≡ xs ++ unescape false ps
unfolding escape unescape
unescape-escape [] ps b = refl
unescape-escape (x ∷ xs) ps b = elim (Bool-cases (is_special x)) [
  | inl special ↦
      rw special (
        rw (special-aa, special-double x b.0 special) (ap (λ l. x ∷ l) (unescape-escape xs ps b.1)))
  | inr plain ↦ rw plain (
      rw ((str2hex-digits x b.0).0, plain-ne x plain) (ap (λ l. x ∷ l) (unescape-escape xs ps b.1)))
]

pub unescape-frame : (xs : List ℕ) → Bytes xs → unescape false (frame xs) ≡ 0xBB ∷ xs ++ (0xEE ∷ [])
unfolding frame unescape str2hex
unescape-frame xs b = ap (λ l. 0xBB ∷ l) (unescape-escape xs (digits_of 0xEE ∷ []) b)

Reads-shift :
    (a b : ℕ) (l : List ℕ) (pos : ℕ) (ps : List (ℕ × ℕ))
    → Reads l pos ps
    → Reads (a ∷ b ∷ l) (pos + 2) ps
Reads-shift a b l pos [] r = tt
Reads-shift a b l pos ((m, n) ∷ ps) r = (
  subst (λ k. get_elem? (a ∷ b ∷ l) k ≡ some m) {x = suc (suc pos)} (omega arith) r.0,
  subst (λ k. get_elem? (a ∷ b ∷ l) k ≡ some n) {x = suc (suc (pos + 1))} (omega arith) r.1,
  Reads-shift a b l (pos + 2) ps r.2,
)

pub Reads-chars : (ps : List (ℕ × ℕ)) (rest : List ℕ) → Reads (chars ps ++ rest) 0 ps
unfolding chars
Reads-chars [] rest = tt
Reads-chars ((m, n) ∷ ps) rest =
    (refl, refl, Reads-shift m n (chars ps ++ rest) 0 ps (Reads-chars ps rest))

abbrev pub NonZero : List ℕ → Type 0
NonZero [] = Unit {0}
NonZero (x ∷ xs) = (x ≢ 0) × NonZero xs

pub strstr-found :
    (pre post : List ℕ)
    → NonZero pre
    → (e : ℕ) × (strstr text_end (pre ++ (b'E' ∷ b'E' ∷ post)) ≡ some e)
unfolding strstr
strstr-found [] post z = (0, refl)
strstr-found (c ∷ pre) post z =
    let (e, found) = strstr-found pre post z.1 in
    elim (Bool-cases (has_prefix text_end (c ∷ pre ++ (b'E' ∷ b'E' ∷ post)))) [
      | inl hit ↦ (0, rw hit)
      | inr miss ↦ (suc e, rw (miss, ne→==_false c 0 z.0, found))
    ]
