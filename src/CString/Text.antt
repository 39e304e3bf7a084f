-- ===== src/CString/Text.antt =====
-- The functions of <string.h> on a text without NUL that a NUL ends.
use footprints_ev.Base.{
  ℕ, suc, ◌≤◌, ◌<◌, ◌≡◌, ◌≢◌, ◌↔◌, refl, Bool, true, false, some, List, [], ◌∷◌, ◌++◌, arith, ◌==◌,
  length, drop, ne→==_false, Bool-cases, inl, inr, ==_iff,
}
use footprints_ev.Base.Distinct.{All}
use footprints_ev.CString.{strlen, strcpy, strcat, same_string}

abbrev pub IsText : List ℕ → Type 0
IsText cs = All (λ c. c ≢ 0) cs

pub strlen-text : (cs rest : List ℕ) → IsText cs → strlen (cs ++ (0 ∷ rest)) ≡ some (length cs)
unfolding strlen
strlen-text [] rest t = refl
strlen-text (c ∷ cs) rest (ne, t) = rw (ne→==_false c 0 ne, strlen-text cs rest t) refl

pub strcpy-text :
    (buf cs rest : List ℕ)
    → IsText cs
    → length cs < length buf
    → strcpy buf (cs ++ (0 ∷ rest)) ≡ some (cs ++ (0 ∷ drop (suc (length cs)) buf))
unfolding strcpy
strcpy-text [] cs rest t h = absurd (omega arith)
strcpy-text (b ∷ buf) [] rest t h = refl
strcpy-text (b ∷ buf) (c ∷ cs) rest (ne, t) h =
    rw (ne→==_false c 0 ne, strcpy-text buf cs rest t (omega arith)) refl

pub strcat-text :
    (cs spare ds rest : List ℕ)
    → IsText cs
    → IsText ds
    → length ds ≤ length spare
    → strcat (cs ++ (0 ∷ spare)) (ds ++ (0 ∷ rest))
      ≡ some (cs ++ (ds ++ (0 ∷ drop (length ds) spare)))
unfolding strcat
strcat-text [] spare ds rest t u h = strcpy-text (0 ∷ spare) ds rest u (omega arith)
strcat-text (c ∷ cs) spare ds rest (ne, t) u h =
    rw (ne→==_false c 0 ne, strcat-text cs spare ds rest t u h) refl

pub same_string-text :
    (cs rest ds rest' : List ℕ)
    → IsText cs
    → IsText ds
    → (b : Bool) × (same_string (cs ++ (0 ∷ rest)) (ds ++ (0 ∷ rest')) ≡ some b)
      × ((b ≡ true) ↔ (cs ≡ ds))
unfolding same_string
same_string-text [] rest [] rest' t u = (true, refl, ((λ e. refl), (λ e. refl)))
same_string-text [] rest (d ∷ ds) rest' t (ne, u) =
    (false, rw (ne→==_false 0 d (λ e. ne (cc))) refl, ((λ e. absurd (cc)), (λ e. absurd (cc))))
same_string-text (c ∷ cs) rest [] rest' (ne, t) u =
    (false, rw (ne→==_false c 0 ne) refl, ((λ e. absurd (cc)), (λ e. absurd (cc))))
same_string-text (c ∷ cs) rest (d ∷ ds) rest' (ne, t) (ne', u) = elim (Bool-cases (c == d)) [
  | inl same ↦
      let (b, run, iff) = same_string-text cs rest ds rest' t u in
      let eq = (==_iff c d).0 same in
      (
        b,
        rw (same, ne→==_false c 0 ne, run) refl,
        ((λ e. let tails = iff.0 e in cc), (λ e. iff.1 (cc))),
      )
  | inr other ↦ (
    false,
    rw other refl,
    (
      (λ e. absurd (cc)),
      (λ e. let heads : c ≡ d = cc in absurd (let s = (==_iff c d).1 heads in cc)),
    ),
  )
]
