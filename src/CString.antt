-- ===== src/CString.antt =====
-- The functions of <string.h> that the server calls, on the bytes from a pointer to the end of the
-- object that it points into.
pub mod Text
use mathlib.Core.Option
use footprints_ev.Base.{
  ℕ, zero, suc, ◌≤◌, ◌≡◌, refl, Bool, true, false, ◌&&◌, Option, none, some, List, [], ◌∷◌, arith,
  ◌==◌, if◌then◌else◌,
}

-- `strlen`: the index of the first NUL; `none` where it runs out of the object.
unfoldable pub strlen : List ℕ → Option ℕ
strlen [] = none
strlen (c ∷ s) = if c == 0 then some 0 else Option.map suc (strlen s)

unfoldable pub has_prefix : List ℕ → List ℕ → Bool
has_prefix [] s = true
has_prefix (n ∷ needle) [] = false
has_prefix (n ∷ needle) (c ∷ s) = (n == c) && has_prefix needle s

-- `strstr`: the offset of the first occurrence in the string, `none` for NULL.
unfoldable pub strstr : List ℕ → List ℕ → Option ℕ
unfolding has_prefix
strstr needle [] = none
strstr needle (c ∷ s) =
    if has_prefix needle (c ∷ s)
    then some 0
    else if c == 0
    then none
    else Option.map suc (strstr needle s)

-- `strcpy`, to the end of the object that the destination points into: `none` where it writes or reads past one
unfoldable pub strcpy : List ℕ → List ℕ → Option (List ℕ)
strcpy buf [] = none
strcpy [] (c ∷ s) = none
strcpy (d ∷ buf) (c ∷ s) = if c == 0 then some (0 ∷ buf) else Option.map (λ r. c ∷ r) (strcpy buf s)

-- `strcat`
unfoldable pub strcat : List ℕ → List ℕ → Option (List ℕ)
strcat [] s = none
strcat (d ∷ buf) s = if d == 0 then strcpy (d ∷ buf) s else Option.map (λ r. d ∷ r) (strcat buf s)

-- Does `strcmp` return 0?
unfoldable pub same_string : List ℕ → List ℕ → Option Bool
same_string [] t = none
same_string (c ∷ s) [] = none
same_string (c ∷ s) (d ∷ t) =
    if c == d then (if c == 0 then some true else same_string s t) else some false

-- Does `strncmp` return 0?
unfoldable pub same_start : ℕ → List ℕ → List ℕ → Option Bool
same_start zero s t = some true
same_start (suc n) [] t = none
same_start (suc n) (c ∷ s) [] = none
same_start (suc n) (c ∷ s) (d ∷ t) =
    if c == d then (if c == 0 then some true else same_start n s t) else some false

map-suc-le :
    (x y : Option ℕ)
    → ((b n : ℕ) → x ≡ some b → y ≡ some n → b ≤ n)
    → (b n : ℕ) → Option.map suc x ≡ some b
    → Option.map suc y ≡ some n
    → b ≤ n
map-suc-le none y ih b n e l = absurd (cc)
map-suc-le (some x) none ih b n e l = absurd (cc)
map-suc-le (some x) (some y) ih b n e l = ground (arith, ih x y refl refl)

-- What `strstr` finds starts before the end of the string.
pub strstr-le-strlen :
    (needle s : List ℕ) (b n : ℕ) → strstr needle s ≡ some b → strlen s ≡ some n → b ≤ n
unfolding strstr strlen
strstr-le-strlen needle [] b n e l = absurd (cc)
strstr-le-strlen needle (c ∷ s) b n e l =
    ground (arith, map-suc-le (strstr needle s) (strlen s) (strstr-le-strlen needle s) b n)
