-- ===== src/CProject/Numbers.antt =====
-- CProjectDfn.h: the macros for numbers, on `unsigned int`, and ABS on `int`. A macro that assigns to its arguments works on a
-- store of variables, where two arguments may be the same variable.
use footprints_ev.Base.{
  ℕ, ◌+◌, ◌-◌, ◌%◌, ◌^◌, ◌≤◌, ◌<◌, ◌≡◌, ◌≢◌, Bool, ◌&&◌, arith, ltb, leb, ◌==◌, if◌then◌else◌,
  update, Option, none, some, refl, Bool-cases, inl, inr,
}

abbrev pub Store : Type 0
Store = ℕ → ℕ

-- `x + y` and `x - y` on `unsigned int`
abbrev pub plus : ℕ → ℕ → ℕ
plus x y = (x + y) % 2 ^ 32

abbrev pub minus : ℕ → ℕ → ℕ
minus x y = (x + 2 ^ 32 - y) % 2 ^ 32

-- `swap`
unfoldable pub swap : ℕ → ℕ → Store → Store
swap x y s =
    let s1 = update s x (plus (s x) (s y)) in
    let s2 = update s1 y (minus (s1 x) (s1 y)) in update s2 x (minus (s2 x) (s2 y))

-- `MIN`, `MAX`, `CLAMP`
unfoldable pub min_of : ℕ → ℕ → ℕ
min_of x y = if ltb x y then x else y

unfoldable pub max_of : ℕ → ℕ → ℕ
max_of x y = if ltb y x then x else y

unfoldable pub clamp : ℕ → ℕ → ℕ → ℕ
clamp x low high = if ltb high x then high else if ltb x low then low else x

-- `DEC_CHECK`
unfoldable pub dec_check : ℕ → Bool
dec_check c = leb b'0' c && leb c b'9'

-- `SECUR_INC`, the new value of `val`
unfoldable pub secur_inc : ℕ → ℕ → ℕ
secur_inc val number = if ltb val (plus val number) then plus val number else val

-- `ABS` of an `int` in two's complement; `none` where the negation overflows
unfoldable pub abs_int : ℕ → Option ℕ
abs_int x = if ltb x (2 ^ 31) then some x else if x == 2 ^ 31 then none else some (2 ^ 32 - x)

-- `swap` of two variables exchanges their values, also where the sum wraps around, and changes no other. `swap` of a
-- variable with itself sets it to 0.
pub swap-exchanges :
    (x y : ℕ) (s : Store)
    → s x < 2 ^ 32
    → s y < 2 ^ 32
    → (x ≢ y → (swap x y s x ≡ s y) × (swap x y s y ≡ s x))
      × ((z : ℕ) → z ≢ x → z ≢ y → swap x y s z ≡ s z)
      × (swap x x s x ≡ 0)
unfolding swap
swap-exchanges x y s h k =
    ((λ ne. (ground arith, ground arith)), (λ z ne ne'. ground arith), ground arith)

-- `SECUR_INC` of an `unsigned int` by another is the sum where that is below 2 ^ 32, and leaves the value where it is not.
pub secur_inc-saturates :
    (val number : ℕ)
    → val < 2 ^ 32
    → number < 2 ^ 32
    → secur_inc val number ≡ (if ltb (val + number) (2 ^ 32) then val + number else val)
unfolding secur_inc
secur_inc-saturates val number h k = ground arith

-- `CLAMP` is `MAX` of the low limit and `MIN` with the high one, where the limits are in order.
pub clamp-min_of : (x low high : ℕ) → low ≤ high → clamp x low high ≡ max_of low (min_of x high)
unfolding clamp min_of max_of
clamp-min_of x low high h = ground arith

-- `ABS` of every `int` but the least is defined and not negative, and that of `-x` is the same.
pub abs_int-sign :
    (x : ℕ)
    → x < 2 ^ 32
    → x ≢ 2 ^ 31
    → (y : ℕ) × (abs_int x ≡ some y) × (y < 2 ^ 31) × (abs_int (minus 0 x) ≡ some y)
unfolding abs_int
abs_int-sign x small ne = elim (Bool-cases (ltb x (2 ^ 31))) [
  | inl pos ↦ (x, rw pos refl, ground arith, ground arith)
  | inr neg ↦ (2 ^ 32 - x, ground arith, ground arith, ground arith)
]

abs_int-least : abs_int (2 ^ 31) ≡ none
unfolding abs_int
abs_int-least = refl
