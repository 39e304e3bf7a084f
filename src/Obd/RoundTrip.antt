-- ===== src/Obd/RoundTrip.antt =====
-- The server decodes what a sender framed.
use footprints_ev.Base.{
  ℕ, ◌+◌, ◌*◌, ◌/◌, ◌%◌, ◌≤◌, ◌<◌, ◌≡◌, ◌≢◌, refl, sym, ◌∙◌, ap, true, false, some, List, [], ◌∷◌,
  ◌++◌, append_assoc, add-zero, arith, length, length-append, set-append, drop, Bool-cases, inl,
  inr,
}
use footprints_ev.CString.{strstr}
use footprints_ev.Hex.Digits.{upper}
use footprints_ev.Obd.{Obd, image, finished, filter_escape, text_begin, text_end}
use footprints_ev.Obd.Convert.{unescape, Reads, write_at, convert_loop-unescape}
use footprints_ev.Obd.Bounds.{IsSized}
use footprints_ev.Obd.Endless.{HasFrame, filter_escape-HasFrame}
use footprints_ev.Obd.Escape.{
  Bytes, NonZero, is_special, digits_of, escape, chars, frame, unescape-frame, Reads-chars,
  strstr-found,
}

length-chars : (ps : List (ℕ × ℕ)) → length (chars ps) ≡ 2 * length ps
unfolding chars
length-chars [] = refl
length-chars ((m, n) ∷ ps) = omega (arith, length-chars ps)

chars-append : (ps qs : List (ℕ × ℕ)) → chars (ps ++ qs) ≡ chars ps ++ chars qs
unfolding chars
chars-append [] qs = refl
chars-append ((m, n) ∷ ps) qs = ap (λ l. m ∷ n ∷ l) (chars-append ps qs)

upper-ne : (d : ℕ) → upper d ≢ 0
upper-ne d = ground arith

NonZero-escape : (xs : List ℕ) → NonZero (chars (escape xs))
unfolding chars escape
NonZero-escape [] = tt
NonZero-escape (x ∷ xs) = elim (Bool-cases (is_special x)) [
  | inl special ↦ rw special (
    upper-ne (0xAA / 16),
    (upper-ne (0xAA % 16), (upper-ne (x / 16), (upper-ne (x % 16), NonZero-escape xs))),
  )
  | inr plain ↦ rw plain (upper-ne (x / 16), (upper-ne (x % 16), NonZero-escape xs))
]

length-escape : (xs : List ℕ) → length xs ≤ length (escape xs)
unfolding escape
length-escape [] = omega arith
length-escape (x ∷ xs) = elim (Bool-cases (is_special x)) [
  | inl special ↦ rw special (omega (arith, length-escape xs))
  | inr plain ↦ rw plain (omega (arith, length-escape xs))
]

length-frame : (xs : List ℕ) → length xs + 2 ≤ length (frame xs)
unfolding frame
length-frame xs = omega (arith, length-escape xs, length-append (escape xs) (digits_of 0xEE ∷ []))

write_at-append :
    (pre l vs : List ℕ) (j : ℕ)
    → j ≡ length pre
    → length vs ≤ length l
    → write_at (pre ++ l) j vs ≡ pre ++ (vs ++ drop (length vs) l)
write_at-append pre l [] j e h = refl
write_at-append pre [] (v ∷ vs) j e h = absurd (omega arith)
write_at-append pre (y ∷ l) (v ∷ vs) j e h =
    let ih =
      write_at-append (pre ++ (v ∷ [])) l vs (length pre + 1) (sym (length-append pre (v ∷ [])))
        (omega arith) in
    rw (e, set-append) (simp append_assoc at ih)

-- The buffer holds the characters of the frame of `xs` and a NUL, and fits its one-byte length.
pub record Holds (xs : List ℕ) (rest : List ℕ) (o : Obd) : Type 0 where
  pub text : o.data_bytes ≡ chars (frame xs) ++ (0 ∷ rest)
  pub counted : o.data_length ≡ length (chars (frame xs))
  pub fits : o.data_length < 255
  pub sized : IsSized o

pub chars-frame :
    (xs : List ℕ) → chars (frame xs) ≡ b'B' ∷ b'B' ∷ chars (escape xs) ++ (b'E' ∷ b'E' ∷ [])
unfolding frame chars
chars-frame xs = ap (λ l. b'B' ∷ b'B' ∷ l) (chars-append (escape xs) (digits_of 0xEE ∷ []))

layout :
    (xs rest tail : List ℕ)
    → (chars (frame xs) ++ (0 ∷ rest)) ++ tail
      ≡ (b'B' ∷ b'B' ∷ chars (escape xs)) ++ (b'E' ∷ b'E' ∷ 0 ∷ rest ++ tail)
layout xs rest tail = rw (chars-frame xs, append_assoc, append_assoc)

begins : (s : List ℕ) → strstr text_begin (b'B' ∷ b'B' ∷ s) ≡ some 0
unfolding strstr
begins s = refl

Holds-HasFrame : (xs rest : List ℕ) (o : Obd) → Holds xs rest o → (e : ℕ) × HasFrame o 0 e
Holds-HasFrame xs rest o h =
    let tail : List ℕ = o.data_length ∷ o.hex ++ (o.id ∷ []) in
    let e : image o ≡ _ = ap (λ d. d ++ tail) h.text ∙ layout xs rest tail in
    let (end, found) =
      strstr-found (b'B' ∷ b'B' ∷ chars (escape xs)) (0 ∷ rest ++ tail)
        ((λ z. omega arith), ((λ z. omega arith), NonZero-escape xs)) in
    (
      end,
      record {
        begins = ap (strstr text_begin) e ∙ begins _;
        ends = ap (strstr text_end) e ∙ found;
        ordered = omega arith;
      },
    )

-- On a buffer whose `data_length` is below 255, with both markers in order, where the digit pairs
-- `ps` stand from the first BB on, as many as cover the length of the message, the function writes
-- the bytes of the pairs, unescaped, over the beginning of `hex`, and changes nothing else.
pub filter_escape-unescape :
    (o : Obd) (b e : ℕ) (ps : List (ℕ × ℕ))
    → HasFrame o b e
    → o.data_length < 255
    → o.data_length ≤ 2 * length ps
    → 2 * length ps ≤ o.data_length + 1
    → Reads o.data_bytes b ps
    → filter_escape 128 o ≡ finished (true, record o { hex = write_at o.hex 0 (unescape false ps) })
filter_escape-unescape o b e ps f small lo hi r =
    filter_escape-HasFrame 128 o b e f
    ∙ convert_loop-unescape ps 128 b 0 0 false o (omega arith) small (omega arith) (omega arith)
        (omega arith) (rw add-zero r)

-- A buffer that holds the characters of a frame is decoded: the function returns TRUE within 128
-- rounds, `hex` begins with BB, the payload and EE, and nothing else of the buffer changes.
pub filter_escape-frame :
    (xs rest : List ℕ) (o : Obd)
    → Bytes xs
    → Holds xs rest o
    → filter_escape 128 o
      ≡ finished (true, record o { hex = (0xBB ∷ xs ++ (0xEE ∷ [])) ++ drop (length xs + 2) o.hex })
filter_escape-frame xs rest o b h =
    let (end, f) = Holds-HasFrame xs rest o h in
    let size = length-chars (frame xs) in
    let counted = h.counted in
    let fits = h.fits in
    let hex_size = h.sized.hex_size in
    filter_escape-unescape o 0 end (frame xs) f fits (omega arith) (omega arith)
      (rw h.text (Reads-chars (frame xs) (0 ∷ rest)))
    ∙ ap (λ t. finished (true, record o { hex = t }))
        (ap (write_at o.hex 0) (unescape-frame xs b)
          ∙ (write_at-append [] o.hex (0xBB ∷ xs ++ (0xEE ∷ [])) 0 refl
                (omega (arith, length-append xs (0xEE ∷ []), length-frame xs))
              ∙ ap (λ n. (0xBB ∷ xs ++ (0xEE ∷ [])) ++ drop n o.hex)
                  {x = length (0xBB ∷ xs ++ (0xEE ∷ []))}
                  (omega (arith, length-append xs (0xEE ∷ [])))))

NonZero-append : (xs ys : List ℕ) → NonZero xs → NonZero ys → NonZero (xs ++ ys)
NonZero-append [] ys a b = b
NonZero-append (x ∷ xs) ys a b = (a.0, NonZero-append xs ys a.1 b)

-- a frame is a string without NUL
pub NonZero-frame : (xs : List ℕ) → NonZero (chars (frame xs))
NonZero-frame xs =
    let Sign : ℕ → Type 0 = λ c. c ≢ 0 in
    let b : Sign b'B' = λ z. omega arith in
    let e : Sign b'E' = λ z. omega arith in
    let inner =
      NonZero-append (chars (escape xs)) (b'E' ∷ b'E' ∷ []) (NonZero-escape xs) (e, (e, tt)) in
    rw (chars-frame xs) (b, (b, inner))
