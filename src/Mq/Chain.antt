-- ===== src/Mq/Chain.antt =====
-- Chains of `next` and of `prev` pointers, and what an update does to them.
use footprints_ev.Base.{
  ◌≡◌, ◌≢◌, refl, sym, ◌∙◌, List, [], ◌∷◌, ◌++◌, update, update_self, update-ne,
}
use footprints_ev.Mq.{Ptr}
pub use footprints_ev.Base.Distinct.{NotIn, Distinct, NotIn-init, Distinct-init}

-- from `a` the `next` fields lead through `xs` to `b`
abbrev pub NextChain : (Ptr → Ptr) → Ptr → List Ptr → Ptr → Type 0
NextChain next a [] b = next a ≡ b
NextChain next a (x ∷ xs) b = (next a ≡ x) × NextChain next x xs b

-- the `prev` fields lead from `b` through `xs`, backwards, to `a`
abbrev pub PrevChain : (Ptr → Ptr) → Ptr → List Ptr → Ptr → Type 0
PrevChain prev a [] b = prev b ≡ a
PrevChain prev a (x ∷ xs) b = (prev x ≡ a) × PrevChain prev x xs b

-- the last of `a ∷ xs`
abbrev pub last : Ptr → List Ptr → Ptr
last a [] = a
last a (x ∷ xs) = last x xs

pub last-ne : (p a : Ptr) (xs : List Ptr) → p ≢ a → NotIn p xs → p ≢ last a xs
last-ne p a [] ne out = ne
last-ne p a (x ∷ xs) ne out = last-ne p x xs out.0 out.1

pub last-append : (a x : Ptr) (xs : List Ptr) → last a (xs ++ (x ∷ [])) ≡ x
last-append a x [] = refl
last-append a x (y ∷ xs) = last-append y x xs

module _ (p v : Ptr) where
  pub NextChain-update :
      (next : Ptr → Ptr) (a : Ptr) (xs : List Ptr) (b : Ptr)
      → p ≢ a
      → NotIn p xs
      → NextChain next a xs b
      → NextChain (update next p v) a xs b
  NextChain-update next a [] b ne out c = update-ne next p v a (λ e. ne (sym e)) ∙ c
  NextChain-update next a (x ∷ xs) b ne out c =
      (update-ne next p v a (λ e. ne (sym e)) ∙ c.0, NextChain-update next x xs b out.0 out.1 c.1)

  pub PrevChain-update :
      (prev : Ptr → Ptr) (a : Ptr) (xs : List Ptr) (b : Ptr)
      → p ≢ b
      → NotIn p xs
      → PrevChain prev a xs b
      → PrevChain (update prev p v) a xs b
  PrevChain-update prev a [] b ne out c = update-ne prev p v b (λ e. ne (sym e)) ∙ c
  PrevChain-update prev a (x ∷ xs) b ne out c =
      (update-ne prev p v x (λ e. out.0 (sym e)) ∙ c.0, PrevChain-update prev x xs b ne out.1 c.1)

-- A chain may start at another cell that points to the same place.
pub NextChain-restart :
    (next : Ptr → Ptr) (a a' : Ptr) (xs : List Ptr) (b : Ptr)
    → next a' ≡ next a
    → NextChain next a xs b
    → NextChain next a' xs b
NextChain-restart next a a' [] b e c = e ∙ c
NextChain-restart next a a' (x ∷ xs) b e c = (e ∙ c.0, c.1)

-- The cell before the end is the last of the chain.
pub PrevChain-last :
    (prev : Ptr → Ptr) (a : Ptr) (xs : List Ptr) (b : Ptr)
    → PrevChain prev a xs b
    → prev b ≡ last a xs
PrevChain-last prev a [] b c = c
PrevChain-last prev a (x ∷ xs) b c = PrevChain-last prev x xs b c.1

pub PrevChain-init :
    (prev : Ptr → Ptr) (a : Ptr) (xs : List Ptr) (x b : Ptr)
    → PrevChain prev a (xs ++ (x ∷ [])) b
    → PrevChain prev a xs x × (prev b ≡ x)
PrevChain-init prev a [] x b c = c
PrevChain-init prev a (y ∷ xs) x b c =
    let rest = PrevChain-init prev y xs x b c.1 in ((c.0, rest.0), rest.1)

-- To write `c` behind the last cell but one ends the chain there.
pub NextChain-cut :
    (next : Ptr → Ptr) (a : Ptr) (xs : List Ptr) (x b c : Ptr)
    → NotIn a xs
    → Distinct xs
    → NextChain next a (xs ++ (x ∷ [])) b
    → NextChain (update next (last a xs) c) a xs c
NextChain-cut next a [] x b c out d h = update_self next a c
NextChain-cut next a (y ∷ xs) x b c out d h = (
  update-ne next (last y xs) c a (last-ne a y xs out.0 out.1) ∙ h.0,
  NextChain-cut next y xs x b c d.0 d.1 h.1,
)

pub PrevChain-cut :
    (prev : Ptr → Ptr) (a : Ptr) (xs : List Ptr) (x b : Ptr)
    → NotIn b xs
    → PrevChain prev a xs x
    → PrevChain (update prev b (last a xs)) a xs b
PrevChain-cut prev a [] x b out h = update_self prev b a
PrevChain-cut prev a (y ∷ xs) x b out h = (
  update-ne prev b (last y xs) y (λ e. out.0 (sym e)) ∙ h.0,
  PrevChain-cut prev y xs x b out.1 h.1,
)

-- the first of `xs`, or the end
abbrev pub first : Ptr → List Ptr → Ptr
first b [] = b
first b (x ∷ xs) = x

pub NextChain-first :
    (a b : Ptr) (xs : List Ptr) (next : Ptr → Ptr) → NextChain next a xs b → next a ≡ first b xs
NextChain-first a b [] next c = c
NextChain-first a b (x ∷ xs) next c = c.0
