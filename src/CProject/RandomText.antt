-- ===== src/CProject/RandomText.antt =====
-- MemoryPoolTester.h and MemoryPoolDef.h: `GenerateRandStr`, with the results of `rand` as a list.
use footprints_ev.Base.{
  ℕ, suc, ◌+◌, ◌%◌, ◌≤◌, ◌<◌, ◌≡◌, refl, ◌∙◌, ap, Option, none, some, List, [], ◌∷◌, ◌++◌, map,
  arith, length, drop,
}
use footprints_ev.CString.{strlen}
use footprints_ev.CString.Text.{IsText, strlen-text}
use mathlib.Core.Option

-- the character of a random number
abbrev pub random_char : ℕ → ℕ
random_char r = r % 94 + 32

-- The loop over `str[i]` and the NUL behind it, one step for each of the `strLen` numbers: `none` where a write is
-- outside the object that `str` points into.
unfoldable pub generate_rand_str : List ℕ → List ℕ → Option (List ℕ)
generate_rand_str rs [] = none
generate_rand_str [] (c ∷ str) = some (0 ∷ str)
generate_rand_str (r ∷ rs) (c ∷ str) =
    Option.map (λ s. random_char r ∷ s) (generate_rand_str rs str)

random-IsText : (rs : List ℕ) → IsText (map random_char rs)
random-IsText [] = tt
random-IsText (r ∷ rs) = ((λ e. omega arith), random-IsText rs)

length-map : (rs : List ℕ) → length (map random_char rs) ≡ length rs
length-map [] = refl
length-map (r ∷ rs) = ap suc (length-map rs)

fills :
    (rs str : List ℕ)
    → length rs < length str
    → generate_rand_str rs str ≡ some (map random_char rs ++ (0 ∷ drop (suc (length rs)) str))
unfolding generate_rand_str
fills rs [] h = absurd (omega arith)
fills [] (c ∷ str) h = refl
fills (r ∷ rs) (c ∷ str) h = rw (fills rs str (omega arith)) refl

overruns : (rs str : List ℕ) → length str ≤ length rs → generate_rand_str rs str ≡ none
unfolding generate_rand_str
overruns rs [] h = refl
overruns [] (c ∷ str) h = absurd (omega arith)
overruns (r ∷ rs) (c ∷ str) h = rw (overruns rs str (omega arith)) refl

-- `GenerateRandStr` of a length needs one byte more than that, and goes out of the object with fewer. With enough, it
-- writes a text of just that length and leaves the bytes behind it alone.
pub generate_rand_str-length :
    (rs str : List ℕ)
    → (length rs < length str
        → (buf : List ℕ) × (generate_rand_str rs str ≡ some buf)
          × (strlen buf ≡ some (length rs))
          × (drop (suc (length rs)) buf ≡ drop (suc (length rs)) str))
      × (length str ≤ length rs → generate_rand_str rs str ≡ none)
generate_rand_str-length rs str = (
  (λ h.
      let text = map random_char rs in
      let rest = drop (suc (length rs)) str in
      (
        text ++ (0 ∷ rest),
        fills rs str h,
        strlen-text text rest (random-IsText rs) ∙ ap some (length-map rs),
        behind rs rest,
      )),
  overruns rs str,
)
  where
    behind : (xs ys : List ℕ) → drop (suc (length xs)) (map random_char xs ++ (0 ∷ ys)) ≡ ys
    behind [] ys = refl
    behind (x ∷ xs) ys = behind xs ys
