-- ===== src/Obd/Endless.antt =====
-- `OBD_filter_escape_and_transfer_to_hex` on a message from the queue: it stays inside the buffer, and
-- it returns unless the message has 255 characters.
use footprints_ev.Base.{
  ℕ, ◌≤◌, ◌≡◌, ◌≢◌, refl, ◌∙◌, Bool, true, false, Option, none, some, arith, ltb, ◌↔◌, ◌⊎◌,
  le→ltb_false, Bool-cases, inl, inr,
}
use footprints_ev.CString.{strstr, strstr-le-strlen}
use footprints_ev.Obd.{
  Obd, image, finished, fault, out_of_fuel, convert_loop, convert_between, filter_escape,
  text_begin, text_end,
}
use footprints_ev.Obd.Bounds.{
  IsSized, IsMessage, convert_loop-halts, convert_loop-safe, convert_loop-endless,
}

begin-le : (o : Obd) (b : ℕ) → IsMessage o → strstr text_begin (image o) ≡ some b → b ≤ 256
begin-le o b v e =
    let h = strstr-le-strlen text_begin (image o) b o.data_length e v.text in
    let small = v.small in omega arith

-- both markers, the end not before the beginning
pub record HasFrame (o : Obd) (b e : ℕ) : Type 0 where
  pub begins : strstr text_begin (image o) ≡ some b
  pub ends : strstr text_end (image o) ≡ some e
  pub ordered : b ≤ e

pub filter_escape-HasFrame :
    (fuel : ℕ) (o : Obd) (b e : ℕ)
    → HasFrame o b e
    → filter_escape fuel o ≡ convert_loop fuel b 0 0 false o
unfolding filter_escape
filter_escape-HasFrame fuel o b e f = rw (f.begins, f.ends, le→ltb_false e b f.ordered)

abbrev FrameOrNot : Obd → Option ℕ → Option ℕ → Type 0
FrameOrNot o x y =
    ((b : ℕ) × (e : ℕ) × (x ≡ some b) × (y ≡ some e) × (b ≤ e))
    ⊎ ((fuel : ℕ) → convert_between fuel o x y ≡ finished (false, o))

markers : (o : Obd) (x y : Option ℕ) → FrameOrNot o x y
markers o none y = inr (λ fuel. refl)
markers o (some b) none = inr (λ fuel. refl)
markers o (some b) (some e) = elim (Bool-cases (ltb e b)) [
  | inl before ↦ inr (λ fuel. rw before)
  | inr ordered ↦ inl (b, e, refl, refl, ground arith)
]

HasFrame-cases :
    (o : Obd)
    → ((b : ℕ) × (e : ℕ) × HasFrame o b e)
      ⊎ ((fuel : ℕ) → filter_escape fuel o ≡ finished (false, o))
unfolding filter_escape
HasFrame-cases o = elim (markers o (strstr text_begin (image o)) (strstr text_end (image o))) [
  | inl (b, e, x, y, le) ↦ inl (b, e, record { begins = x; ends = y; ordered = le })
  | inr fails ↦ inr fails
]

-- On a queued message of another length than 255, 128 rounds are enough: the function returns, the
-- arrays keep their sizes, and it returns TRUE exactly when both markers are there, the first BB not behind the first EE.
pub filter_escape-halts :
    (o : Obd)
    → IsMessage o
    → o.data_length ≢ 255
    → (done : Bool) × (o' : Obd) × (filter_escape 128 o ≡ finished (done, o'))
      × IsSized o'
      × ((done ≡ true) ↔ ((b : ℕ) × (e : ℕ) × HasFrame o b e))
filter_escape-halts o v ne = elim (HasFrame-cases o) [
  | inl (b, e, f) ↦
      let small = v.small in
      let begin = begin-le o b v f.begins in
      let (o', run, size) =
        convert_loop-halts 128 b 0 0 false o v.sized begin (omega arith) (omega arith)
          (omega arith) in
      (true, o', filter_escape-HasFrame 128 o b e f ∙ run, size, ((λ _. (b, e, f)), (λ _. refl)))
  | inr fails ↦ (
    false,
    o,
    fails 128,
    v.sized,
    ((λ t. absurd (cc)), λ (b, e, f). returns_true b e f (fails 128)),
  )
]
  where
    returns_true :
        (b e : ℕ) → HasFrame o b e → filter_escape 128 o ≡ finished (false, o) → false ≡ true
    returns_true b e f no_frame =
        let small = v.small in
        let begin = begin-le o b v f.begins in
        let (o', run, size) =
          convert_loop-halts 128 b 0 0 false o v.sized begin (omega arith) (omega arith)
            (omega arith) in
        let here = filter_escape-HasFrame 128 o b e f ∙ run in cc

-- A queued message of 255 characters with both markers in order is never finished: with any fuel the
-- loop runs out of it.
pub filter_escape-endless :
    (o : Obd) (b e : ℕ)
    → IsMessage o
    → o.data_length ≡ 255
    → HasFrame o b e
    → (fuel : ℕ) → filter_escape fuel o ≡ out_of_fuel
filter_escape-endless o b e v d f fuel =
    filter_escape-HasFrame fuel o b e f
    ∙ convert_loop-endless fuel b 0 0 false o v.sized (begin-le o b v f.begins) d (omega arith)
        (omega arith)

-- On a queued message no read of the function leaves the `OBD_t`, however long it runs.
pub filter_escape-safe : (o : Obd) (fuel : ℕ) → IsMessage o → filter_escape fuel o ≢ fault
filter_escape-safe o fuel v = elim (HasFrame-cases o) [
  | inl (b, e, f) ↦
      rw (filter_escape-HasFrame fuel o b e f)
        (convert_loop-safe fuel b 0 0 false o v.sized (begin-le o b v f.begins) v.small)
  | inr fails ↦ rw (fails fuel) (λ e. cc)
]
