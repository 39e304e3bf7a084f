-- ===== src/CProject/Paths/Slash.antt =====
-- `AddSlashAtPathEnd`, `RemoveSlashAtPathEnd` and `GENERATE_PATH` on the text of a path.
use footprints_ev.Base.{
  ℕ, suc, ◌+◌, ◌-◌, ◌≡◌, ◌≢◌, refl, sym, ◌∙◌, ap, subst, Option, some, List, [], ◌∷◌, ◌++◌, arith,
  ◌==◌, if◌then◌else◌, length, get_elem?, lt→ltb, ne→==_false, Bool-cases, inl, inr, ==_iff,
  append_assoc, length-append, set-append,
}
use footprints_ev.CString.Text.{IsText, strlen-text}
use footprints_ev.CProject.Paths.{slash, put, last_of, add_slash, remove_slash}

-- The specification: a text without the slash at its end, if there is one.
unfoldable pub strip : List ℕ → List ℕ
strip [] = []
strip (c ∷ []) = if c == slash then [] else c ∷ []
strip (c ∷ d ∷ cs) = c ∷ strip (d ∷ cs)

pub strip-slash : (cs : List ℕ) → strip (cs ++ (slash ∷ [])) ≡ cs
unfolding strip
strip-slash [] = refl
strip-slash (c ∷ []) = refl
strip-slash (c ∷ d ∷ cs) = ap (λ r. c ∷ r) (strip-slash (d ∷ cs))

pub strip-other : (cs : List ℕ) (c : ℕ) → c ≢ slash → strip (cs ++ (c ∷ [])) ≡ cs ++ (c ∷ [])
unfolding strip
strip-other [] c ne = rw (ne→==_false c slash ne) refl
strip-other (d ∷ []) c ne = rw (ne→==_false c slash ne) refl
strip-other (d ∷ e ∷ cs) c ne = ap (λ r. d ∷ r) (strip-other (e ∷ cs) c ne)

-- a path that is not empty ends in a slash or in something else
pub data Ending (cs : List ℕ) : Type 0 where
  ends : (ds : List ℕ) (c : ℕ) → cs ≡ ds ++ (c ∷ []) → Ending cs

pub ending : (c : ℕ) (cs : List ℕ) → Ending (c ∷ cs)
ending c [] = ends [] c refl
ending c (d ∷ cs) = longer (ending d cs)
  where
    longer : Ending (d ∷ cs) → Ending (c ∷ d ∷ cs)
    longer (ends ds e eq) = ends (c ∷ ds) e (ap (λ r. c ∷ r) eq)

IsText-snoc : (ds : List ℕ) (c : ℕ) → IsText (ds ++ (c ∷ [])) → IsText ds × (c ≢ 0)
IsText-snoc [] c (ne, _) = (tt, ne)
IsText-snoc (d ∷ ds) c (ne, t) = let (ts, last) = IsText-snoc ds c t in ((ne, ts), last)

pub snoc-IsText : (ds : List ℕ) (c : ℕ) → IsText ds → c ≢ 0 → IsText (ds ++ (c ∷ []))
snoc-IsText [] c t ne = (ne, tt)
snoc-IsText (d ∷ ds) c (here, t) ne = (here, snoc-IsText ds c t ne)

pub strip-IsText : (cs : List ℕ) → IsText cs → IsText (strip cs)
unfolding strip
strip-IsText [] t = tt
strip-IsText (c ∷ []) (ne, _) = elim (Bool-cases (c == slash)) [
  | inl same ↦ rw same tt
  | inr other ↦ rw other (ne, tt)
]
strip-IsText (c ∷ d ∷ cs) (ne, t) = (ne, strip-IsText (d ∷ cs) t)

get-append :
    (ds : List ℕ) (c : ℕ) (rest : List ℕ) → get_elem? (ds ++ (c ∷ rest)) (length ds) ≡ some c
get-append [] c rest = refl
get-append (d ∷ ds) c rest = get-append ds c rest

-- the last character in front of the NUL
last-text :
    (ds : List ℕ) (c : ℕ) (rest : List ℕ)
    → last_of ((ds ++ (c ∷ [])) ++ rest) (length (ds ++ (c ∷ []))) ≡ some c
last-text ds c rest =
    rw (length-append ds (c ∷ []), append_assoc ds (c ∷ []) rest)
      (subst (λ n. last_of (ds ++ (c ∷ rest)) n ≡ some c) {x = suc (length ds)} (omega arith)
        (get-append ds c rest))

put-append :
    (ds : List ℕ) (c v : ℕ) (rest : List ℕ)
    → put (ds ++ (c ∷ rest)) (length ds) v ≡ some (ds ++ (v ∷ rest))
unfolding put
put-append ds c v rest =
    rw
      (
        lt→ltb (length ds) (length (ds ++ (c ∷ rest))) (omega (arith, length-append ds (c ∷ rest))),
        set-append ds c rest v,
      )
      refl

-- what the last step of `AddSlashAtPathEnd` writes over
appended :
    (cs : List ℕ) (x : ℕ) (rest : List ℕ)
    → IsText cs
    → put (cs ++ (0 ∷ x ∷ rest)) (length cs + 1) 0 ≡ some (cs ++ (0 ∷ 0 ∷ rest))
appended cs x rest t =
    rw (sym (append_assoc cs (0 ∷ []) (x ∷ rest)), sym (append_assoc cs (0 ∷ []) (0 ∷ rest)))
      (subst (λ n. put ((cs ++ (0 ∷ [])) ++ (x ∷ rest)) n 0 ≡ some ((cs ++ (0 ∷ [])) ++ (0 ∷ rest)))
        (length-append cs (0 ∷ [])) (put-append (cs ++ (0 ∷ [])) x 0 rest))

-- the text that a buffer of a size shows
abbrev pub Shows : List ℕ → ℕ → Option (List ℕ) → Type 0
Shows cs size r =
    (rest : List ℕ) × (r ≡ some (cs ++ (0 ∷ rest))) × (length (cs ++ (0 ∷ rest)) ≡ size)

add_slash-snoc :
    (ds : List ℕ) (c x : ℕ) (rest : List ℕ)
    → IsText (ds ++ (c ∷ []))
    → Shows
        (strip (ds ++ (c ∷ [])) ++ (slash ∷ []))
        (length ((ds ++ (c ∷ [])) ++ (0 ∷ x ∷ rest)))
        (add_slash ((ds ++ (c ∷ [])) ++ (0 ∷ x ∷ rest)))
unfolding add_slash
add_slash-snoc ds c x rest t =
    let cs = ds ++ (c ∷ []) in
    let long = strlen-text cs (x ∷ rest) t in
    let last = last-text ds c (0 ∷ x ∷ rest) in
    elim (Bool-cases (c == slash)) [
      | inl same ↦
          let eq = (==_iff c slash).0 same in
          (
            x ∷ rest,
            rw (long, last, same)
                (ap (λ r. some (r ++ (0 ∷ x ∷ rest)))
                  (sym (
                    ap (λ k. strip (ds ++ (k ∷ [])) ++ (slash ∷ [])) eq
                    ∙ (ap (λ r. r ++ (slash ∷ [])) (strip-slash ds)
                        ∙ ap (λ k. ds ++ (k ∷ [])) (sym eq))))),
            ap length (
                ap (λ r. r ++ (0 ∷ x ∷ rest))
                  (ap (λ k. strip (ds ++ (k ∷ [])) ++ (slash ∷ [])) eq
                    ∙ (ap (λ r. r ++ (slash ∷ [])) (strip-slash ds)
                        ∙ ap (λ k. ds ++ (k ∷ [])) (sym eq)))),
          )
      | inr other ↦
          let ne : c ≢ slash = λ e. let s = (==_iff c slash).1 e in cc in
          let bare = strip-other ds c ne in
          (
            rest,
            rw
                (
                  long,
                  last,
                  other,
                  appended cs x rest t,
                  strlen-text cs (0 ∷ rest) t,
                  put-append cs 0 slash (0 ∷ rest),
                  bare,
                )
                (ap some (sym (append_assoc cs (slash ∷ []) (0 ∷ rest)))),
            rw bare (
                omega (
                  arith,
                  length-append (cs ++ (slash ∷ [])) (0 ∷ rest),
                  length-append cs (slash ∷ []),
                  length-append cs (0 ∷ x ∷ rest),
                )),
          )
    ]

-- `AddSlashAtPathEnd` on a path that is not empty, in a buffer with a byte to spare behind its NUL, returns. The buffer
-- shows the path as it was where that ends in a slash, and otherwise with a slash behind it, in the same object.
pub add_slash-text :
    (c : ℕ) (cs : List ℕ) (x : ℕ) (rest : List ℕ)
    → IsText (c ∷ cs)
    → Shows
        (strip (c ∷ cs) ++ (slash ∷ []))
        (length ((c ∷ cs) ++ (0 ∷ x ∷ rest)))
        (add_slash ((c ∷ cs) ++ (0 ∷ x ∷ rest)))
add_slash-text c cs x rest t = at_end (ending c cs)
  where
    at_end :
        Ending (c ∷ cs)
        → Shows
            (strip (c ∷ cs) ++ (slash ∷ []))
            (length ((c ∷ cs) ++ (0 ∷ x ∷ rest)))
            (add_slash ((c ∷ cs) ++ (0 ∷ x ∷ rest)))
    at_end (ends ds d e) =
        subst
          (λ p.
            Shows (strip p ++ (slash ∷ [])) (length (p ++ (0 ∷ x ∷ rest)))
              (add_slash (p ++ (0 ∷ x ∷ rest))))
          (sym e) (add_slash-snoc ds d x rest (subst IsText e t))

remove_slash-snoc :
    (ds : List ℕ) (c : ℕ) (rest : List ℕ)
    → IsText (ds ++ (c ∷ []))
    → Shows
        (strip (ds ++ (c ∷ [])))
        (length ((ds ++ (c ∷ [])) ++ (0 ∷ rest)))
        (remove_slash ((ds ++ (c ∷ [])) ++ (0 ∷ rest)))
unfolding remove_slash
remove_slash-snoc ds c rest t =
    let cs = ds ++ (c ∷ []) in
    let long = strlen-text cs rest t in
    let last = last-text ds c (0 ∷ rest) in
    elim (Bool-cases (c == slash)) [
      | inl same ↦
          let eq = (==_iff c slash).0 same in
          let bare : strip cs ≡ ds = ap (λ k. strip (ds ++ (k ∷ []))) eq ∙ strip-slash ds in
          let short : length cs - 1 ≡ length ds = omega (arith, length-append ds (c ∷ [])) in
          (
            0 ∷ rest,
            rw
                (
                  long,
                  last,
                  same,
                  short,
                  append_assoc ds (c ∷ []) (0 ∷ rest),
                  put-append ds c 0 (0 ∷ rest),
                  bare,
                )
                refl,
            rw bare (
                omega (
                  arith,
                  length-append ds (0 ∷ 0 ∷ rest),
                  length-append cs (0 ∷ rest),
                  length-append ds (c ∷ []),
                )),
          )
      | inr other ↦
          let ne : c ≢ slash = λ e. let s = (==_iff c slash).1 e in cc in
          let bare = strip-other ds c ne in (rest, rw (long, last, other, bare) refl, rw bare refl)
    ]

-- `RemoveSlashAtPathEnd` on a path that is not empty returns, and the buffer shows the path without a slash at its end.
pub remove_slash-text :
    (c : ℕ) (cs rest : List ℕ)
    → IsText (c ∷ cs)
    → Shows
        (strip (c ∷ cs))
        (length ((c ∷ cs) ++ (0 ∷ rest)))
        (remove_slash ((c ∷ cs) ++ (0 ∷ rest)))
remove_slash-text c cs rest t = at_end (ending c cs)
  where
    at_end :
        Ending (c ∷ cs)
        → Shows
            (strip (c ∷ cs))
            (length ((c ∷ cs) ++ (0 ∷ rest)))
            (remove_slash ((c ∷ cs) ++ (0 ∷ rest)))
    at_end (ends ds d e) =
        subst (λ p. Shows (strip p) (length (p ++ (0 ∷ rest))) (remove_slash (p ++ (0 ∷ rest))))
          (sym e) (remove_slash-snoc ds d rest (subst IsText e t))
