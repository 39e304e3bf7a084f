-- ===== src/CProject/Paths/Tests.antt =====
-- Paths, and the theorems at them.
use footprints_ev.Base.{ℕ, ◌≡◌, ◌↔◌, refl, true, Bool, some, List, [], ◌∷◌, ◌++◌, arith, replicate}
use footprints_ev.CString.{strlen, same_string, same_start}
use footprints_ev.CProject.Paths.{
  slash, generate_path, is_same_path, is_sub_path, is_self_or_parent,
}
use footprints_ev.CProject.Paths.Slash.{strip, Shows}
use footprints_ev.CProject.Paths.Join.{generate_path-text}
use footprints_ev.CProject.Paths.Same.{is_same_path-strip}
use footprints_ev.CProject.Paths.Sub.{Under, is_sub_path-prefix}

-- "/a", "/ab"
abbrev short_path : List ℕ
short_path = b'/' ∷ b'a' ∷ []

abbrev long_path : List ℕ
long_path = b'/' ∷ b'a' ∷ b'b' ∷ []

generate_path-text_example :
    Shows
      ((strip short_path ++ (slash ∷ [])) ++ long_path)
      8
      (generate_path (replicate 8 7) (short_path ++ (0 ∷ [])) (long_path ++ (0 ∷ [])))
generate_path-text_example =
    generate_path-text (replicate 8 7) b'/' (b'a' ∷ []) long_path [] []
      ((λ e. omega arith), ((λ e. omega arith), tt))
      ((λ e. omega arith), ((λ e. omega arith), ((λ e. omega arith), tt))) (omega arith)

is_same_path-strip_example :
    (b : Bool) × (is_same_path (short_path ++ (0 ∷ [])) (short_path ++ (slash ∷ 0 ∷ [])) ≡ some b)
    × ((b ≡ true) ↔ (strip short_path ≡ strip (short_path ++ (slash ∷ []))))
is_same_path-strip_example =
    is_same_path-strip b'/' (b'a' ∷ []) [] b'/' (b'a' ∷ slash ∷ []) []
      ((λ e. omega arith), ((λ e. omega arith), tt))
      ((λ e. omega arith), ((λ e. omega arith), ((λ e. omega arith), tt)))

is_sub_path-prefix_example :
    (b : Bool) × (is_sub_path (short_path ++ (0 ∷ [])) (long_path ++ (0 ∷ [])) ≡ some b)
    × ((b ≡ true) ↔ Under short_path long_path)
is_sub_path-prefix_example =
    is_sub_path-prefix short_path [] long_path [] ((λ e. omega arith), ((λ e. omega arith), tt))
      ((λ e. omega arith), ((λ e. omega arith), ((λ e. omega arith), tt)))

-- "/ab" counts as below "/a".
sibling : is_sub_path (short_path ++ (0 ∷ [])) (long_path ++ (0 ∷ [])) ≡ some true
unfolding is_sub_path strlen same_start
sibling = refl

parent : is_self_or_parent (b'.' ∷ b'.' ∷ 0 ∷ []) ≡ some true
unfolding is_self_or_parent same_string
parent = refl
