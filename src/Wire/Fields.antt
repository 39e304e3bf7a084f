-- ===== src/Wire/Fields.antt =====
-- OBD_structs_new.h: `SET_FIELD`, and the members of a structure one behind the other.
use footprints_ev.Base.{
  ℕ, zero, suc, ◌+◌, ◌%◌, ◌≤◌, ◌<◌, ◌≡◌, ◌≢◌, ◌⊎◌, refl, ◌∙◌, ap, subst, Option, none, some, List,
  [], ◌∷◌, arith, length, set, length-set, get_elem?, ltb, ◌==◌, if◌then◌else◌, inl, inr,
  Bool-cases, ==_iff,
}
use footprints_ev.Wire.{Layout, placed, round_up}
use footprints_ev.Wire.Fit.{member_bytes, member_at, round_up-le}

-- `SET_FIELD(a,b,c)` on the bytes of the structure `*a`, where `b` is a member of one byte. A member that is an array
-- or a pointer is no `u8_t` to assign to, and a write past the bytes is outside the object.
abbrev set_at : ℕ → List ℕ → ℕ × ℕ → Option (List ℕ)
set_at v l (offset, size) =
    if size == 1
    then if ltb offset (length l) then some (set l offset (v % 256)) else none
    else none

unfoldable pub set_field : Layout → ℕ → ℕ → List ℕ → Option (List ℕ)
set_field ms b c l = elim (get_elem? (placed 0 ms) b) [ none ↦ none | some m ↦ set_at c l m ]

get_elem?-set_other : (l : List ℕ) (i j v : ℕ) → j ≢ i → get_elem? (set l i v) j ≡ get_elem? l j
get_elem?-set_other [] i j v ne = refl
get_elem?-set_other (x ∷ l) zero zero v ne = absurd (ne refl)
get_elem?-set_other (x ∷ l) zero (suc j) v ne = refl
get_elem?-set_other (x ∷ l) (suc i) zero v ne = refl
get_elem?-set_other (x ∷ l) (suc i) (suc j) v ne = get_elem?-set_other l i j v (λ e. ne (ap suc e))

get_elem?-set_same : (l : List ℕ) (i v : ℕ) → i < length l → get_elem? (set l i v) i ≡ some v
get_elem?-set_same [] i v h = absurd (omega arith)
get_elem?-set_same (x ∷ l) zero v h = refl
get_elem?-set_same (x ∷ l) (suc i) v h = get_elem?-set_same l i v (omega arith)

-- a write in front of a member or behind it
abbrev Apart : ℕ → ℕ × ℕ → Type 0
Apart p (offset, size) = (p < offset) ⊎ (offset + size ≤ p)

Apart-ne : (p offset size : ℕ) → Apart p (offset, suc size) → offset ≢ p
Apart-ne p offset size (inl h) = λ e. omega arith
Apart-ne p offset size (inr h) = λ e. omega arith

Apart-rest : (p offset size i n : ℕ) → Apart p (offset + i, suc n) → Apart p (offset + suc i, n)
Apart-rest p offset size i n (inl h) = inl (omega arith)
Apart-rest p offset size i n (inr h) = inr (omega arith)

member_bytes-set :
    (l : List ℕ) (p v offset i n : ℕ)
    → Apart p (offset + i, n)
    → member_bytes (set l p v) offset i n ≡ member_bytes l offset i n
member_bytes-set l p v offset i zero a = refl
member_bytes-set l p v offset i (suc n) a =
    rw (get_elem?-set_other l p (offset + i) v (Apart-ne p (offset + i) n a))
      (rw (member_bytes-set l p v offset (suc i) n (Apart-rest p offset n i n a)) refl)

-- a member of a placed layout starts at its beginning or later
placed-from :
    (n : ℕ) (ms : Layout) (k : ℕ) (m : ℕ × ℕ) → get_elem? (placed n ms) k ≡ some m → n ≤ m.0
placed-from n [] k m e = absurd (cc)
placed-from n (x ∷ ms) zero m e =
    subst (λ (m : ℕ × ℕ). n ≤ m.0) {x = (round_up x.wide n, x.size)} {y = m} (cc)
      (round_up-le x.wide n)
placed-from n (x ∷ ms) (suc k) m e =
    omega (arith, round_up-le x.wide n, placed-from (round_up x.wide n + x.size) ms k m e)

-- two members do not overlap
placed-Apart :
    (n : ℕ) (ms : Layout) (j k : ℕ) (p : ℕ) (m : ℕ × ℕ)
    → j ≢ k
    → get_elem? (placed n ms) k ≡ some (p, 1)
    → get_elem? (placed n ms) j ≡ some m
    → Apart p m
placed-Apart n [] j k p m ne ek ej = absurd (cc)
placed-Apart n (x ∷ ms) zero zero p m ne ek ej = absurd (ne refl)
placed-Apart n (x ∷ ms) zero (suc k) p m ne ek ej =
    let from = placed-from (round_up x.wide n + x.size) ms k (p, 1) ek in
    subst (Apart p) {x = (round_up x.wide n, x.size)} (cc) (inr from)
placed-Apart n (x ∷ ms) (suc j) zero p m ne ek ej =
    let from = placed-from (round_up x.wide n + x.size) ms j m ej in
    let place : (round_up x.wide n ≡ p) × (x.size ≡ 1) = (cc, cc) in
    inl (omega (arith, place.0, place.1))
placed-Apart n (x ∷ ms) (suc j) (suc k) p m ne ek ej =
    placed-Apart (round_up x.wide n + x.size) ms j k p m (λ e. ne (ap suc e)) ek ej

written :
    (c : ℕ) (l l' : List ℕ) (p size : ℕ)
    → set_at c l (p, size) ≡ some l'
    → (size ≡ 1) × (p < length l) × (l' ≡ set l p (c % 256))
written c l l' p size e = elim (Bool-cases (size == 1)) [
  | inl one ↦ elim (Bool-cases (ltb p (length l))) [
    | inl inside ↦ ((==_iff size 1).0 one, ground arith, cc)
    | inr outside ↦ absurd (cc)
  ]
  | inr other ↦ absurd (cc)
]

unwritten :
    (l : List ℕ) (p v : ℕ) (ms : Layout) (k j : ℕ) (x : Option (ℕ × ℕ))
    → get_elem? (placed 0 ms) k ≡ some (p, 1)
    → j ≢ k
    → get_elem? (placed 0 ms) j ≡ x
    → member_at (placed 0 ms) j (set l p v) ≡ member_at (placed 0 ms) j l
unwritten l p v ms k j none ek ne ej = rw (ej, member_at) refl
unwritten l p v ms k j (some (offset, size)) ek ne ej =
    let apart = placed-Apart 0 ms j k p (offset, size) ne ek ej in
    rw (ej, member_at)
      (member_bytes-set l p v offset 0 size
        (subst (λ o. Apart p (o, size)) {x = offset} (omega arith) apart))

read_back :
    (l : List ℕ) (p v : ℕ) → p < length l → member_bytes (set l p v) p 0 1 ≡ some ((0, v) ∷ [])
read_back l p v h =
    let at : get_elem? (set l p v) (p + 0) ≡ some v =
      subst (λ q. get_elem? (set l p v) q ≡ some v) {x = p} (omega arith)
        (get_elem?-set_same l p v h) in
    rw at refl

fields :
    (ms : Layout) (k c : ℕ) (l l' : List ℕ) (x : Option (ℕ × ℕ))
    → get_elem? (placed 0 ms) k ≡ x
    → set_field ms k c l ≡ some l'
    → (member_at (placed 0 ms) k l' ≡ some ((0, c % 256) ∷ []))
      × ((j : ℕ) → j ≢ k → member_at (placed 0 ms) j l' ≡ member_at (placed 0 ms) j l)
      × (length l' ≡ length l)
unfolding set_field
fields ms k c l l' none e did =
    let gone : none ≡ some l' = rw (e, set_field) at did in absurd (cc (gone))
fields ms k c l l' (some (p, size)) e did =
    let (one, inside, now) = written c l l' p size (rw (e, set_field) at did) in
    let here : get_elem? (placed 0 ms) k ≡ some (p, 1) = e ∙ ap (λ n. some (p, n)) one in
    rw now (
      (rw (here, member_at) (read_back l p (c % 256) inside)),
      (λ j ne. unwritten l p (c % 256) ms k j (get_elem? (placed 0 ms) j) here ne refl),
      length-set l p (c % 256),
    )

-- `SET_FIELD` of a member of one byte, where it lies in the object: reading the member gives the byte, reduced modulo 256,
-- every other member of the structure reads as before, and the object keeps its size.
set_field-member :
    (ms : Layout) (k c : ℕ) (l l' : List ℕ)
    → set_field ms k c l ≡ some l'
    → (member_at (placed 0 ms) k l' ≡ some ((0, c % 256) ∷ []))
      × ((j : ℕ) → j ≢ k → member_at (placed 0 ms) j l' ≡ member_at (placed 0 ms) j l)
      × (length l' ≡ length l)
set_field-member ms k c l l' did = fields ms k c l l' (get_elem? (placed 0 ms) k) refl did
