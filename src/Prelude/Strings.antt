-- ===== src/Prelude/Strings.antt =====
-- Go's strings: sequences of bytes, compared byte by byte from the front.
use Prim.Native.Nat.{ℕ, compare, Ordering}
use mathlib.Core.Path.{◌≡◌, refl, ap, subst}
use mathlib.Core.Logic.{inl, inr}
use mathlib.Core.Bool.{Bool, true, false}
use mathlib.Core.List.{List, [], ◌∷◌}
use native.Mathlib.Omega.{arith}
use test_db.Prelude.Booleans.{Bool-cases}

abbrev pub Str : Type 0
Str = List ℕ

unfoldable pub str_compare : Str → Str → Ordering
str_compare [] [] = Ordering.eq
str_compare [] (y ∷ ys) = Ordering.lt
str_compare (x ∷ xs) [] = Ordering.gt
str_compare (x ∷ xs) (y ∷ ys) = elim (compare x y) [
  | Ordering.lt ↦ Ordering.lt
  | Ordering.eq ↦ str_compare xs ys
  | Ordering.gt ↦ Ordering.gt
]

-- a < b, a <= b and a == b on strings
abbrev pub str_ltb : Str → Str → Bool
str_ltb a b = elim (str_compare a b) [ Ordering.lt ↦ true | _ ↦ false ]

abbrev pub str_leb : Str → Str → Bool
str_leb a b = elim (str_compare a b) [ Ordering.gt ↦ false | _ ↦ true ]

abbrev pub str_eq : Str → Str → Bool
str_eq a b = elim (str_compare a b) [ Ordering.eq ↦ true | _ ↦ false ]

pub str_compare_refl : (a : Str) → str_compare a a ≡ Ordering.eq
unfolding str_compare
str_compare_refl [] = refl
str_compare_refl (x ∷ xs) = ground (arith, str_compare_refl xs)

pub eq_of_str_compare : (a b : Str) → str_compare a b ≡ Ordering.eq → a ≡ b
unfolding str_compare
eq_of_str_compare [] [] h = refl
eq_of_str_compare [] (y ∷ ys) h = cc
eq_of_str_compare (x ∷ xs) [] h = cc
eq_of_str_compare (x ∷ xs) (y ∷ ys) h = ground (arith, eq_of_str_compare xs ys)

abbrev pub flip : Ordering → Ordering
flip Ordering.lt = Ordering.gt
flip Ordering.eq = Ordering.eq
flip Ordering.gt = Ordering.lt

pub str_compare_swap : (a b : Str) → str_compare b a ≡ flip (str_compare a b)
unfolding str_compare
str_compare_swap [] [] = refl
str_compare_swap [] (y ∷ ys) = refl
str_compare_swap (x ∷ xs) [] = refl
str_compare_swap (x ∷ xs) (y ∷ ys) = ground (arith, str_compare_swap xs ys)

pub str_lt_trans :
    (a b c : Str)
    → str_compare a b ≡ Ordering.lt
    → str_compare b c ≡ Ordering.lt
    → str_compare a c ≡ Ordering.lt
unfolding str_compare
str_lt_trans [] [] c h k = cc
str_lt_trans [] (y ∷ ys) [] h k = cc
str_lt_trans [] (y ∷ ys) (z ∷ zs) h k = refl
str_lt_trans (x ∷ xs) [] c h k = cc
str_lt_trans (x ∷ xs) (y ∷ ys) [] h k = cc
str_lt_trans (x ∷ xs) (y ∷ ys) (z ∷ zs) h k = ground (arith, str_lt_trans xs ys zs)

pub str_eq_refl : (a : Str) → str_eq a a ≡ true
str_eq_refl a = rw (str_compare_refl a, str_eq) refl

pub eq_of_str_eq : (a b : Str) → str_eq a b ≡ true → a ≡ b
eq_of_str_eq a b h = eq_of_str_compare a b (ground arith)

-- Equal strings compare alike.
pub str_eq_left : (a b c : Str) → str_eq a b ≡ true → str_eq a c ≡ str_eq b c
str_eq_left a b c h = ap (λ x. str_eq x c) (eq_of_str_eq a b h)

pub str_eq_sym : (a b : Str) → str_eq a b ≡ str_eq b a
str_eq_sym a b = ground (arith, str_compare_swap a b)

pub str_ltb_trans : (a b c : Str) → str_ltb a b ≡ true → str_ltb b c ≡ true → str_ltb a c ≡ true
str_ltb_trans a b c h k = ground (arith, h, k, str_lt_trans a b c)

-- What is not above the least of two is below the greatest.
pub str_ltb_cotrans : (a b c : Str) → str_ltb a c ≡ true → str_ltb a b ≡ false → str_ltb b c ≡ true
str_ltb_cotrans a b c h k = elim (Bool-cases (str_eq a b)) [
  | inl same ↦ subst (λ x. str_ltb x c ≡ true) (eq_of_str_eq a b same) h
  | inr other ↦
      let above : str_ltb b a ≡ true = ground (arith, k, other, str_compare_swap a b) in
      str_ltb_trans b a c above h
]

-- a <= b
abbrev pub AtMost : Str → Str → Type 0
AtMost a b = str_ltb b a ≡ false

pub AtMost-trans : (a b c : Str) → AtMost a b → AtMost b c → AtMost a c
AtMost-trans a b c h k = elim (Bool-cases (str_ltb c a)) [
  | inr below ↦ below
  | inl above ↦ absurd (ground (arith, h, str_ltb_cotrans c b a above k))
]

pub AtMost-refl : (a : Str) → AtMost a a
AtMost-refl a = ground (arith, str_compare_refl a)

pub AtMost-below : (a b : Str) → str_ltb a b ≡ true → AtMost a b
AtMost-below a b h = ground (arith, h, str_compare_swap a b)

pub below-AtMost : (a b c : Str) → str_ltb a b ≡ true → AtMost b c → str_ltb a c ≡ true
below-AtMost a b c h k = elim (Bool-cases (str_ltb a c)) [
  | inl below ↦ below
  | inr above ↦ absurd (ground (arith, k, str_ltb_cotrans a c b h above))
]
