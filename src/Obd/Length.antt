-- ===== src/Obd/Length.antt =====
-- `OBD_filter_escape_and_transfer_to_hex` leaves `data_length` alone.
use footprints_ev.Base.{
  ℕ, zero, suc, ◌≡◌, ◌∙◌, Bool, true, false, Option, none, some, ltb, Bool-cases, inl, inr,
  Option-cases, arith,
}
use footprints_ev.CString.{strstr}
use footprints_ev.Obd.{
  Obd, Run, finished, convert_step, convert_loop, convert_between, filter_escape, image, text_begin,
  text_end,
}

step-data_length :
    (begin i j : ℕ) (flag : Bool) (o : Obd) (j' : ℕ) (flag' : Bool) (o' : Obd)
    → convert_step begin i j flag o ≡ some (j', flag', o')
    → o'.data_length ≡ o.data_length
unfolding convert_step
step-data_length begin i j true o j' flag' o' e = ground arith
step-data_length begin i j false o j' flag' o' e = ground arith

stopped :
    (b done : Bool) (o o' : Obd)
    → Path (Run (Bool × Obd)) (finished (b, o)) (finished (done, o'))
    → o'.data_length ≡ o.data_length
stopped b done o o' e = cc

loop-data_length :
    (fuel begin i j : ℕ) (flag : Bool) (o : Obd) (done : Bool) (o' : Obd)
    → convert_loop fuel begin i j flag o ≡ finished (done, o')
    → o'.data_length ≡ o.data_length
unfolding convert_loop
loop-data_length zero begin i j flag o done o' e = absurd (cc)
loop-data_length (suc fuel) begin i j flag o done o' e = elim (Bool-cases (ltb i o.data_length)) [
  | inr over ↦ stopped true done o o' (rw (over, convert_loop) at e)
  | inl more ↦ elim (Option-cases (convert_step begin i j flag o)) [
    | inl stuck ↦ absurd (let e' = rw (more, stuck, convert_loop) at e in cc)
    | inr ((j', flag', o''), step) ↦
        loop-data_length fuel begin _ j' flag' o'' done o' (rw (more, step, convert_loop) at e)
        ∙ step-data_length begin i j flag o j' flag' o'' step
  ]
]

between-data_length :
    (fuel : ℕ) (o : Obd) (b e : Option ℕ) (done : Bool) (o' : Obd)
    → convert_between fuel o b e ≡ finished (done, o')
    → o'.data_length ≡ o.data_length
between-data_length fuel o none e done o' h = cc
between-data_length fuel o (some b) none done o' h = cc
between-data_length fuel o (some b) (some e) done o' h = elim (Bool-cases (ltb e b)) [
  | inl less ↦ stopped false done o o' (rw less at h)
  | inr more ↦ loop-data_length fuel b 0 0 false o done o' (rw more at h)
]

pub filter_escape-data_length :
    (fuel : ℕ) (o : Obd) (done : Bool) (o' : Obd)
    → filter_escape fuel o ≡ finished (done, o')
    → o'.data_length ≡ o.data_length
unfolding filter_escape
filter_escape-data_length fuel o done o' h =
    between-data_length fuel o (strstr text_begin (image o)) (strstr text_end (image o)) done o' h
