-- ===== src/Base/Distinct.antt =====
-- Lists of distinct numbers, as predicates by recursion.
use mathlib.Core.Path.{sym}
use mathlib.Core.Logic.{◌≢◌}
use mathlib.Core.List.{List, [], ◌∷◌, ◌++◌}
use Prim.Native.Nat.{ℕ}

abbrev pub NotIn : ℕ → List ℕ → Type 0
NotIn p [] = Unit {0}
NotIn p (x ∷ xs) = (p ≢ x) × NotIn p xs

abbrev pub Distinct : List ℕ → Type 0
Distinct [] = Unit {0}
Distinct (x ∷ xs) = NotIn x xs × Distinct xs

pub NotIn-init : (p x : ℕ) (xs : List ℕ) → NotIn p (xs ++ (x ∷ [])) → NotIn p xs × (p ≢ x)
NotIn-init p x [] out = (tt, out.0)
NotIn-init p x (y ∷ xs) out = let rest = NotIn-init p x xs out.1 in ((out.0, rest.0), rest.1)

pub Distinct-init : (x : ℕ) (xs : List ℕ) → Distinct (xs ++ (x ∷ [])) → Distinct xs × NotIn x xs
Distinct-init x [] d = (tt, tt)
Distinct-init x (y ∷ xs) d =
    let out = NotIn-init y x xs d.0 in
    let rest = Distinct-init x xs d.1 in ((out.0, rest.0), ((λ e. out.1 (sym e)), rest.1))

pub NotIn-suffix :
    (p : ℕ) (ws : List ℕ) (y : ℕ) (ys : List ℕ)
    → NotIn p (ws ++ (y ∷ ys))
    → NotIn p (ws ++ ys) × (p ≢ y) × NotIn p ys
NotIn-suffix p [] y ys o = (o.1, o.0, o.1)
NotIn-suffix p (w ∷ ws) y ys o =
    let rest = NotIn-suffix p ws y ys o.1 in ((o.0, rest.0), rest.1, rest.2)

pub Distinct-suffix :
    (ws : List ℕ) (y : ℕ) (ys : List ℕ)
    → Distinct (ws ++ (y ∷ ys))
    → NotIn y (ws ++ ys) × NotIn y ys × Distinct ys
Distinct-suffix [] y ys d = (d.0, d.0, d.1)
Distinct-suffix (w ∷ ws) y ys d =
    let rest = Distinct-suffix ws y ys d.1 in
    let out = NotIn-suffix w ws y ys d.0 in (((λ e. out.1 (sym e)), rest.0), rest.1, rest.2)

pub NotIn-append : (p : ℕ) (xs ys : List ℕ) → NotIn p xs → NotIn p ys → NotIn p (xs ++ ys)
NotIn-append p [] ys o o' = o'
NotIn-append p (x ∷ xs) ys o o' = (o.0, NotIn-append p xs ys o.1 o')

pub NotIn-insert :
    (p b : ℕ) (xs ys : List ℕ) → p ≢ b → NotIn p (xs ++ ys) → NotIn p (xs ++ (b ∷ ys))
NotIn-insert p b [] ys ne o = (ne, o)
NotIn-insert p b (x ∷ xs) ys ne o = (o.0, NotIn-insert p b xs ys ne o.1)

pub Distinct-insert :
    (b : ℕ) (xs ys : List ℕ) → NotIn b (xs ++ ys) → Distinct (xs ++ ys) → Distinct (xs ++ (b ∷ ys))
Distinct-insert b [] ys o d = (o, d)
Distinct-insert b (x ∷ xs) ys o d =
    (NotIn-insert x b xs ys (λ e. o.0 (sym e)) d.0, Distinct-insert b xs ys o.1 d.1)

pub Distinct-remove :
    (b : ℕ) (xs ys : List ℕ) → Distinct (xs ++ (b ∷ ys)) → NotIn b (xs ++ ys) × Distinct (xs ++ ys)
Distinct-remove b [] ys d = d
Distinct-remove b (x ∷ xs) ys d =
    let rest = Distinct-remove b xs ys d.1 in
    let out = NotIn-suffix x xs b ys d.0 in (((λ e. out.1 (sym e)), rest.0), (out.0, rest.1))

pub NotIn-left : (p : ℕ) (xs ys : List ℕ) → NotIn p (xs ++ ys) → NotIn p xs
NotIn-left p [] ys o = tt
NotIn-left p (x ∷ xs) ys o = (o.0, NotIn-left p xs ys o.1)

pub Distinct-left : (xs ys : List ℕ) → Distinct (xs ++ ys) → Distinct xs
Distinct-left [] ys d = tt
Distinct-left (x ∷ xs) ys d = (NotIn-left x xs ys d.0, Distinct-left xs ys d.1)

abbrev pub All {ℓ κ} : {A : Type ℓ} → (A → Type κ) → List A → Type κ
All P [] = Unit
All P (x ∷ xs) = P x × All P xs

module _ {ℓ κ} {A : Type ℓ} (P : A → Type κ) where
  pub All-insert : (b : A) (xs ys : List A) → P b → All P (xs ++ ys) → All P (xs ++ (b ∷ ys))
  All-insert b [] ys p h = (p, h)
  All-insert b (x ∷ xs) ys p h = (h.0, All-insert b xs ys p h.1)

  pub All-remove : (b : A) (xs ys : List A) → All P (xs ++ (b ∷ ys)) → P b × All P (xs ++ ys)
  All-remove b [] ys h = h
  All-remove b (x ∷ xs) ys h = let rest = All-remove b xs ys h.1 in (rest.0, (h.0, rest.1))
