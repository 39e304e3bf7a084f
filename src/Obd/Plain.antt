-- ===== src/Obd/Plain.antt =====
-- string_ops.h: `have_escope`, and the conversion of a buffer in which it finds nothing.
use mathlib.Core.Option
use footprints_ev.Base.{
  ℕ, suc, ◌*◌, ◌/◌, ◌%◌, ◌<◌, ◌≡◌, ◌≢◌, refl, ap, ◌∙◌, Bool, true, false, Option, none, some, List,
  [], ◌∷◌, ◌++◌, arith, map, length, subst, ◌||◌, ne→==_false,
}
use footprints_ev.CString.{strstr}
use footprints_ev.Hex.Digits.{upper, str2hex-digits}
use footprints_ev.Obd.{Obd, finished, escape_text, is_found, have_escope, filter_escape}
use footprints_ev.Obd.Convert.{unescape, write_at}
use footprints_ev.Obd.Endless.{HasFrame}
use footprints_ev.Obd.Escape.{Bytes, digits_of, chars, Reads-chars}
use footprints_ev.Obd.RoundTrip.{filter_escape-unescape}

-- no byte of a list is the escape
abbrev pub NoEscape : List ℕ → Type 0
NoEscape [] = Unit {0}
NoEscape (y ∷ ys) = (y ≢ 0xAA) × NoEscape ys

abbrev pub digits : List ℕ → List (ℕ × ℕ)
digits ys = map digits_of ys

map-suc-none : (x : Option ℕ) → Option.map suc x ≡ none → x ≡ none
map-suc-none none e = refl
map-suc-none (some x) e = absurd (cc)

-- a search that fails fails behind the first character, which is not NUL
strstr-behind :
    (c : ℕ) (needle s : List ℕ) → c ≢ 0 → strstr needle (c ∷ s) ≡ none → strstr needle s ≡ none
unfolding strstr
strstr-behind c needle s ne e = ground (arith, map-suc-none (strstr needle s))

strstr-here : (s : List ℕ) → strstr escape_text (b'A' ∷ b'A' ∷ s) ≢ none
unfolding strstr
strstr-here s e = absurd (cc)

-- the escape, written in two digits
digits-escape :
    (y : ℕ)
    → y ≡ 0xAA
    → (ys rest : List ℕ)
    → chars (digits_of y ∷ digits ys) ++ rest ≡ b'A' ∷ b'A' ∷ chars (digits ys) ++ rest
unfolding chars
digits-escape y e ys rest = rw e refl

upper-ne : (d : ℕ) → upper d ≢ 0
upper-ne d = ground arith

-- a text of digits without the escape text stands for bytes without the escape
NoEscape-strstr :
    (ys rest : List ℕ) → strstr escape_text (chars (digits ys) ++ rest) ≡ none → NoEscape ys
unfolding chars
NoEscape-strstr [] rest e = tt
NoEscape-strstr (y ∷ ys) rest e = (
  λ hit.
      strstr-here (chars (digits ys) ++ rest)
        (subst (λ t. strstr escape_text t ≡ none) (digits-escape y hit ys rest) e),
  NoEscape-strstr ys rest (
      strstr-behind (upper (y % 16)) escape_text _ (upper-ne (y % 16))
        (strstr-behind (upper (y / 16)) escape_text _ (upper-ne (y / 16)) e)),
)

unescape-NoEscape : (ys : List ℕ) → Bytes ys → NoEscape ys → unescape false (digits ys) ≡ ys
unfolding unescape
unescape-NoEscape [] b n = refl
unescape-NoEscape (y ∷ ys) b n =
    rw ((str2hex-digits y b.0).0, ne→==_false y 0xAA n.0)
      (ap (λ l. y ∷ l) (unescape-NoEscape ys b.1 n.1))

nothing-found : (x : Option ℕ) (b : Bool) → (is_found x || b) ≡ false → x ≡ none
nothing-found none b e = refl
nothing-found (some at) b e = absurd (cc)

length-digits : (ys : List ℕ) → length (digits ys) ≡ length ys
length-digits [] = refl
length-digits (y ∷ ys) = ap suc (length-digits ys)

-- A buffer below 255 characters that holds the upper-case digits of bytes, begins with the start marker BB and has the
-- end marker EE in it, is converted to these bytes as they are, within 128 rounds, where `have_escope` finds nothing in
-- its text.
pub filter_escape-plain :
    (o : Obd) (ys rest : List ℕ) (e : ℕ)
    → Bytes ys
    → o.data_bytes ≡ chars (digits ys) ++ (0 ∷ rest)
    → o.data_length ≡ 2 * length ys
    → o.data_length < 255
    → HasFrame o 0 e
    → have_escope o.data_bytes ≡ false
    → filter_escape 128 o ≡ finished (true, record o { hex = write_at o.hex 0 ys })
unfolding have_escope
filter_escape-plain o ys rest e b text counted small f nothing =
    let missing = nothing-found (strstr escape_text o.data_bytes) _ nothing in
    let clean =
      NoEscape-strstr ys (0 ∷ rest) (subst (λ t. strstr escape_text t ≡ none) text missing) in
    filter_escape-unescape o 0 e (digits ys) f small (omega (arith, length-digits ys))
      (omega (arith, length-digits ys)) (rw text (Reads-chars (digits ys) (0 ∷ rest)))
    ∙ ap (λ t. finished (true, record o { hex = write_at o.hex 0 t }))
        (unescape-NoEscape ys b clean)
