-- ===== src/CProject/Paths/Sub.antt =====
-- `IS_SUB_PATH` against the texts of its arguments.
use footprints_ev.Base.{
  ℕ, zero, suc, ◌≡◌, ◌↔◌, refl, sym, ◌∙◌, ap, Bool, true, false, Option, some, List, [], ◌∷◌, ◌++◌,
  arith, ◌==◌, if◌then◌else◌, length, Bool-cases, inl, inr, ==_iff, ne→==_false, append-nil,
  length-append,
}
use footprints_ev.CString.{same_start}
use footprints_ev.CString.Text.{IsText, strlen-text}
use footprints_ev.CProject.Paths.{is_sub_path}

abbrev pub Starts : List ℕ → List ℕ → Type 0
Starts cs ds = (es : List ℕ) × (ds ≡ cs ++ es)

same_start-text :
    (cs rest ds rest' : List ℕ)
    → IsText cs
    → IsText ds
    → (b : Bool) × (same_start (length cs) (cs ++ (0 ∷ rest)) (ds ++ (0 ∷ rest')) ≡ some b)
      × ((b ≡ true) ↔ Starts cs ds)
unfolding same_start
same_start-text [] rest ds rest' t u = (true, refl, ((λ _. (ds, refl)), (λ _. refl)))
same_start-text (c ∷ cs) rest [] rest' (ne, t) u =
    (false, rw (ne→==_false c 0 ne) refl, ((λ e. absurd (cc)), (λ (es, e). absurd (cc))))
same_start-text (c ∷ cs) rest (d ∷ ds) rest' (ne, t) (ne', u) = elim (Bool-cases (c == d)) [
  | inl same ↦
      let (b, run, iff) = same_start-text cs rest ds rest' t u in
      let eq = (==_iff c d).0 same in
      (
        b,
        rw (same, ne→==_false c 0 ne, run) refl,
        ((λ e. let (es, tails) = iff.0 e in (es, cc)), (λ (es, e). iff.1 (es, cc))),
      )
  | inr other ↦ (
    false,
    rw other refl,
    (
      (λ e. absurd (cc)),
      (λ (es, e). let heads : c ≡ d = cc in absurd (let s = (==_iff c d).1 heads in cc)),
    ),
  )
]

same_start-swap : (n : ℕ) (s t : List ℕ) → same_start n s t ≡ same_start n t s
unfolding same_start
same_start-swap zero s t = refl
same_start-swap (suc n) [] [] = refl
same_start-swap (suc n) [] (d ∷ t) = refl
same_start-swap (suc n) (c ∷ s) [] = refl
same_start-swap (suc n) (c ∷ s) (d ∷ t) = elim (Bool-cases (c == d)) [
  | inl same ↦
      let eq = (==_iff c d).0 same in
      let back : (d == c) ≡ true = (==_iff d c).1 (sym eq) in
      rw (same, back, eq, same_start-swap n s t) refl
  | inr other ↦
      rw (other, ne→==_false d c (λ e. let s' = (==_iff c d).1 (sym e) in absurd (cc))) refl
]

not_shorter : (cs es ds : List ℕ) → ds ≡ cs ++ es → Starts ds cs → es ≡ []
not_shorter cs [] ds e (fs, back) = refl
not_shorter cs (x ∷ es) ds e (fs, back) = absurd (
    let h = ap length e in
    let k = ap length back in omega (arith, length-append cs (x ∷ es), length-append ds fs))

abbrev pub Under : List ℕ → List ℕ → Type 0
Under cs ds = (e : ℕ) × (es : List ℕ) × (ds ≡ cs ++ (e ∷ es))

proper : (cs ds : List ℕ) → ¬ Starts ds cs → Starts cs ds → Under cs ds
proper cs ds apart ([], e) =
    absurd (apart ([], sym (append-nil cs) ∙ (sym e ∙ sym (append-nil ds))))
proper cs ds apart (x ∷ es, e) = (x, es, e)

decided :
    (longer b : Bool) (cs ds : List ℕ)
    → ((longer ≡ true) ↔ Starts ds cs)
    → ((b ≡ true) ↔ Starts cs ds)
    → ((if longer then false else b) ≡ true) ↔ Under cs ds
decided true b cs ds back forth = (
  (λ e. absurd (cc)),
  (λ (x, es, e). absurd (let none_left = not_shorter cs (x ∷ es) ds e (back.0 refl) in cc)),
)
decided false b cs ds back forth = (
  (λ e. proper cs ds (λ starts. absurd (let h = back.1 starts in cc)) (forth.0 e)),
  (λ (x, es, e). forth.1 (x ∷ es, e)),
)

some-branch :
    (longer b : Bool) (o : Option Bool)
    → o ≡ some b
    → (if longer then some false else o) ≡ some (if longer then false else b)
some-branch true b o e = refl
some-branch false b o e = e

-- `IS_SUB_PATH` on any two paths returns, and says YES exactly where the first is a proper prefix of the second,
-- character by character.
pub is_sub_path-prefix :
    (cs rest ds rest' : List ℕ)
    → IsText cs
    → IsText ds
    → (b : Bool) × (is_sub_path (cs ++ (0 ∷ rest)) (ds ++ (0 ∷ rest')) ≡ some b)
      × ((b ≡ true) ↔ Under cs ds)
unfolding is_sub_path
is_sub_path-prefix cs rest ds rest' t u =
    let (longer, first, back) = same_start-text ds rest' cs rest u t in
    let (b, second, forth) = same_start-text cs rest ds rest' t u in
    (
      if longer then false else b,
      rw
          (
            strlen-text ds rest' u,
            same_start-swap (length ds) (cs ++ (0 ∷ rest)) (ds ++ (0 ∷ rest')),
            first,
            strlen-text cs rest t,
          )
          (some-branch longer b _ second),
      decided longer b cs ds back forth,
    )
