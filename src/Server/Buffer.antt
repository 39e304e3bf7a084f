-- ===== src/Server/Buffer.antt =====
-- What `recv` and the NUL behind it leave in an `OBD_t`.
use footprints_ev.Base.{
  Option, none, ℕ, suc, ◌≤◌, ◌<◌, ◌≡◌, refl, Bool, true, false, some, List, [], ◌∷◌, ◌++◌,
  append_assoc, append-nil, arith, ltb, ◌==◌, if◌then◌else◌, length, length-append, get_or,
  get_elem?-eq-get_or, set-append, drop-cons, drop-all, lt→ltb, ne→==_false, le→ltb_false, inl, inr,
  Bool-cases,
}
use mathlib.Core.Option
use footprints_ev.CString.{strlen}
use footprints_ev.Hex.{str2hex}
use footprints_ev.Obd.{Obd, image, get_cmd}
use footprints_ev.Obd.Escape.{NonZero}
use footprints_ev.Obd.Bounds.{IsSized, IsMessage}
use footprints_ev.Server.Messages.{receive_into}

-- the number of bytes in front of the first NUL
abbrev pub text_length : List ℕ → ℕ
text_length [] = 0
text_length (b ∷ bs) = if b == 0 then 0 else suc (text_length bs)

pub text_length-le : (bs : List ℕ) → text_length bs ≤ length bs
text_length-le [] = omega arith
text_length-le (b ∷ bs) = ground (arith, text_length-le bs)

strlen-text : (bs rest : List ℕ) → strlen (bs ++ (0 ∷ rest)) ≡ some (text_length bs)
unfolding strlen
strlen-text [] rest = refl
strlen-text (b ∷ bs) rest = rw (strlen-text bs rest) (ground arith)

string-step :
    (b : Bool) (x y : Option ℕ) (n : ℕ)
    → (if b then some 0 else Option.map suc x) ≡ some n
    → ((m : ℕ) → x ≡ some m → suc m ≡ n → y ≡ some m)
    → (if b then some 0 else Option.map suc y) ≡ some n
string-step true x y n e rest = e
string-step false none y n e rest = absurd (cc)
string-step false (some m) y n e rest = rw (rest m refl (ground arith)) e

-- a string that ends inside `l` does not depend on what is behind `l`
strlen-front :
    (l r r' : List ℕ) (n : ℕ) → strlen (l ++ r) ≡ some n → n < length l → strlen (l ++ r') ≡ some n
unfolding strlen
strlen-front [] r r' n e h = absurd (omega arith)
strlen-front (c ∷ l) r r' n e h =
    string-step (c == 0) (strlen (l ++ r)) (strlen (l ++ r')) n e
      λ m e' k. strlen-front l r r' m e' (omega arith)

pub receive_into-short :
    (bs : List ℕ) (o : Obd)
    → IsSized o
    → length bs < 256
    → (rest : List ℕ) × (receive_into bs o ≡ record o { data_bytes = bs ++ (0 ∷ rest) })
      × (length (bs ++ (0 ∷ rest)) ≡ 256)
unfolding receive_into
receive_into-short bs o s h =
    let data_size = s.data_size in
    let (y, rest, e, size) = drop-cons (length bs) o.data_bytes (omega arith) in
    (
      rest,
      rw (lt→ltb (length bs) 256 h, e, set-append bs y rest 0) refl,
      omega (arith, length-append bs (0 ∷ rest)),
    )

receive_into-full :
    (bs : List ℕ) (o : Obd)
    → IsSized o
    → length bs ≡ 256
    → receive_into bs o ≡ record o { data_bytes = bs; data_length = 0 }
unfolding receive_into
receive_into-full bs o s h =
    let data_size = s.data_size in
    rw
      (
        le→ltb_false (length bs) 256 (omega arith),
        drop-all (length bs) o.data_bytes (omega arith),
        append-nil,
      )
      refl

-- The received bytes and the NUL stand at the beginning of the buffer, or fill it and the NUL is
-- the member behind it.
pub receive_into-image :
    (bs : List ℕ) (o : Obd)
    → IsSized o
    → length bs ≤ 256
    → IsSized (receive_into bs o) × (strlen (image (receive_into bs o)) ≡ some (text_length bs))
receive_into-image bs o s h = elim (Bool-cases (ltb (length bs) 256)) [
  | inl short ↦
      let (rest, e, size) = receive_into-short bs o s (ground arith) in
      rw e (
        record { data_size = size; hex_size = s.hex_size },
        rw (append_assoc bs (0 ∷ rest) (o.data_length ∷ o.hex ++ (o.id ∷ []))) (strlen-text bs _),
      )
  | inr full ↦
      let size : length bs ≡ 256 = ground arith in
      rw (receive_into-full bs o s size)
        (record { data_size = size; hex_size = s.hex_size }, strlen-text bs (o.hex ++ (o.id ∷ [])))
]

-- A text that ends inside the buffer makes a message, whatever its id.
pub receive_into-IsMessage :
    (bs : List ℕ) (o : Obd) (id : ℕ)
    → IsSized o
    → length bs ≤ 256
    → text_length bs < 256
    → IsMessage (record (receive_into bs o) { data_length = text_length bs; id = id })
receive_into-IsMessage bs o id s h small =
    let (sized, text) = receive_into-image bs o s h in
    let o' = receive_into bs o in
    let size = sized.data_size in
    record {
      sized = record { data_size = sized.data_size; hex_size = sized.hex_size };
      small = small;
      text =
          strlen-front o'.data_bytes (o'.data_length ∷ o'.hex ++ (o'.id ∷ [])) _ (text_length bs)
            text (omega arith);
    }

pub get_cmd-some : (o : Obd) → IsSized o → (id : ℕ) × (get_cmd o ≡ some id)
unfolding get_cmd
get_cmd-some o s =
    let size = s.data_size in
    (
      str2hex (get_or o.data_bytes 2 0) (get_or o.data_bytes 3 0),
      rw
          (
            get_elem?-eq-get_or o.data_bytes 2 0 (omega arith),
            get_elem?-eq-get_or o.data_bytes 3 0 (omega arith),
          )
          refl,
    )

pub text_length-all : (bs : List ℕ) → NonZero bs → text_length bs ≡ length bs
text_length-all [] z = refl
text_length-all (b ∷ bs) z = rw (ne→==_false b 0 z.0, text_length-all bs z.1) refl
