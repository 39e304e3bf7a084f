-- ===== src/Obd/Bounds.antt =====
-- The reads of `OBD_filter_escape_and_transfer_to_hex` stay inside the `OBD_t`, and the loop ends
-- for every length but 255.
use footprints_ev.Base.{
  ℕ, zero, suc, ◌+◌, ◌*◌, ◌≤◌, ◌<◌, ◌≡◌, ◌≢◌, refl, ◌∙◌, Bool, true, false, some, [], ◌∷◌, ◌++◌,
  arith, ◌==◌, length, length-append, length-set, get_or, get_elem?-eq-get_or, Bool-cases, dec_lt,
  ◌%◌, inl, inr,
}
use footprints_ev.CString.{strlen}
use footprints_ev.Hex.{str2hex}
use footprints_ev.Obd.{
  Obd, image, finished, fault, out_of_fuel, byte_at, add_u8, put_hex, convert_step, convert_loop,
}
use footprints_ev.Obd.Convert.{convert_loop-end, convert_loop-round}

-- The arrays have the declared sizes.
pub record IsSized (o : Obd) : Type 0 where
  pub data_size : length o.data_bytes ≡ 256
  pub hex_size : length o.hex ≡ 256

-- What `read_func_cb` puts into the queue: a string whose length fits `data_length`.
pub record IsMessage (o : Obd) : Type 0 where
  pub sized : IsSized o
  pub small : o.data_length < 256
  pub text : strlen (image o) ≡ some o.data_length

byte_at-total : (o : Obd) (p : ℕ) → IsSized o → p < 514 → (v : ℕ) × (byte_at o p ≡ some v)
byte_at-total o p s h = (
  get_or (image o) p 0,
  get_elem?-eq-get_or (image o) p 0 (
      omega (
        arith,
        length-append o.data_bytes (o.data_length ∷ o.hex ++ (o.id ∷ [])),
        length-append o.hex (o.id ∷ []),
      )),
)

-- a round of the loop that reads inside the object
pub record Stepped (begin i j : ℕ) (flag : Bool) (o : Obd) : Type 0 where
  pub j' : ℕ
  pub flag' : Bool
  pub o' : Obd
  pub step : convert_step begin i j flag o ≡ some (j', flag', o')
  pub sized : IsSized o'
  pub same_length : o'.data_length ≡ o.data_length

put_hex-IsSized : (o : Obd) (j v : ℕ) → IsSized o → IsSized (put_hex o j v)
put_hex-IsSized o j v s = record {
  data_size = s.data_size;
  hex_size = length-set o.hex j v ∙ s.hex_size;
}

pub step-Stepped :
    (begin i j : ℕ) (flag : Bool) (o : Obd)
    → IsSized o
    → begin + (i + 1) < 514
    → Stepped begin i j flag o
unfolding convert_step
step-Stepped begin i j true o s h =
    let (n, en) = byte_at-total o (begin + (i + 1)) s h in
    record {
      j' = add_u8 j 1;
      flag' = false;
      o' = put_hex o j (str2hex n n);
      step = rw en;
      sized = put_hex-IsSized o j (str2hex n n) s;
      same_length = refl;
    }
step-Stepped begin i j false o s h =
    let (m, em) = byte_at-total o (begin + i) s (omega arith) in
    let (n, en) = byte_at-total o (begin + (i + 1)) s h in
    elim (Bool-cases (str2hex m n == 0xAA)) [
      | inl escape ↦ record {
        j' = j;
        flag' = true;
        o' = o;
        step = rw (em, en, escape);
        sized = s;
        same_length = refl;
      }
      | inr plain ↦ record {
        j' = add_u8 j 1;
        flag' = false;
        o' = put_hex o j (str2hex m n);
        step = rw (em, en, plain);
        sized = put_hex-IsSized o j (str2hex m n) s;
        same_length = refl;
      }
    ]

-- With fuel for the rounds that are left, the loop returns TRUE, and the arrays keep their sizes.
pub convert_loop-halts :
    (fuel begin i j : ℕ) (flag : Bool) (o : Obd)
    → IsSized o
    → begin ≤ 256
    → o.data_length < 255
    → i ≤ o.data_length + 1
    → o.data_length + 1 < i + 2 * fuel
    → (o' : Obd) × (convert_loop fuel begin i j flag o ≡ finished (true, o')) × IsSized o'
convert_loop-halts zero begin i j flag o s b d near f = absurd (omega arith)
convert_loop-halts (suc fuel) begin i j flag o s b d near f = elim (dec_lt i o.data_length) [
  | no stop ↦ (o, convert_loop-end fuel begin i j flag o (omega arith), s)
  | yes go ↦
      let r = step-Stepped begin i j flag o s (omega arith) in
      let same = r.same_length in
      let (out, e, sized) =
        convert_loop-halts fuel begin (i + 2) r.j' r.flag' r.o' r.sized b (omega arith)
          (omega arith) (omega arith) in
      (
        out,
        convert_loop-round fuel begin i j flag o (i + 2) r.j' r.flag' r.o' go (omega arith) r.step
            ∙ e,
        sized,
      )
]

-- The loop never leaves the object.
pub convert_loop-safe :
    (fuel begin i j : ℕ) (flag : Bool) (o : Obd)
    → IsSized o
    → begin ≤ 256
    → o.data_length < 256
    → convert_loop fuel begin i j flag o ≢ fault
unfolding convert_loop
convert_loop-safe zero begin i j flag o s b d = λ e. cc
convert_loop-safe (suc fuel) begin i j flag o s b d = elim (dec_lt i o.data_length) [
  | no stop ↦ λ e. cc (convert_loop-end fuel begin i j flag o (omega arith))
  | yes go ↦
      let r = step-Stepped begin i j flag o s (omega arith) in
      let same = r.same_length in
      rw (convert_loop-round fuel begin i j flag o (add_u8 i 2) r.j' r.flag' r.o' go refl r.step)
        (convert_loop-safe fuel begin (add_u8 i 2) r.j' r.flag' r.o' r.sized b (omega arith))
]

-- At length 255 the counter wraps from 254 to 0 and the loop goes on for ever.
pub convert_loop-endless :
    (fuel begin i j : ℕ) (flag : Bool) (o : Obd)
    → IsSized o
    → begin ≤ 256
    → o.data_length ≡ 255
    → i % 2 ≡ 0
    → i < 256
    → convert_loop fuel begin i j flag o ≡ out_of_fuel
unfolding convert_loop
convert_loop-endless zero begin i j flag o s b d even small = refl
convert_loop-endless (suc fuel) begin i j flag o s b d even small =
    let r = step-Stepped begin i j flag o s (omega arith) in
    let same = r.same_length in
    convert_loop-round fuel begin i j flag o (add_u8 i 2) r.j' r.flag' r.o' (omega arith) refl
      r.step
    ∙ convert_loop-endless fuel begin (add_u8 i 2) r.j' r.flag' r.o' r.sized b (omega arith)
        (omega arith) (omega arith)
