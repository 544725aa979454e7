-- ===== src/Query/Arith/Product.antt =====
-- When the product of two int64 is an int64, by the divisions that the code tests.
use native.Mathlib.Nat.{div-lt_iff_lt-mul, div-le_self, mul-add, add-mul, mul-zero}
use test_db.Prelude.{
  ℕ, ◌+◌, ◌-◌, ◌*◌, ◌/◌, ◌^◌, ◌<◌, ◌≤◌, ◌≡◌, ap, arith, Bool-cases, inl, inr, ltb, ◌==◌,
  if◌then◌else◌,
}
use test_db.Common.Float.{biased, is_negative}
use test_db.Query.Arith.{
  overflow_in_multiplication, max_int64, min_int64, eval_int_mul, mul_overflows,
}
use test_db.Query.Arith.Exact.{exact}

-- A quotient is below a number exactly when the dividend is below the product.
ltb-div : (k x y : ℕ) → 0 < k → ltb (y / k) x ≡ ltb y (x * k)
ltb-div k x y h = ground (
  arith,
  (div-lt_iff_lt-mul {k = k} {x = y} {y = x} h).0,
  (div-lt_iff_lt-mul {k = k} {x = y} {y = x} h).1,
)

add-sub_self : (a : ℕ) → a ≤ 2 ^ 64 → a + (2 ^ 64 - a) ≡ 2 ^ 64
add-sub_self a h = omega arith

module _ (a b : ℕ) where
  pos_pos : a < 2 ^ 63 → b < 2 ^ 63 → 0 < b → mul_overflows a b ≡ ltb max_int64 (a * b)
  unfolding mul_overflows biased
  pos_pos ha hb h =
      ground (arith, ltb-div b a max_int64, div-le_self max_int64 b, div-le_self min_int64 b)

  neg_pos :
      2 ^ 63 ≤ a
      → a < 2 ^ 64
      → b < 2 ^ 63
      → 0 < b
      → mul_overflows a b ≡ ltb min_int64 ((2 ^ 64 - a) * b)
  unfolding mul_overflows biased
  neg_pos ha ha' hb h =
      ground
        (arith, ltb-div b (2 ^ 64 - a) min_int64, div-le_self max_int64 b, div-le_self min_int64 b)

  pos_neg :
      a < 2 ^ 63 → 2 ^ 63 ≤ b → b < 2 ^ 64 → mul_overflows a b ≡ ltb min_int64 (a * (2 ^ 64 - b))
  unfolding mul_overflows biased
  pos_neg ha hb hb' = ground (
    arith,
    ltb-div (2 ^ 64 - b) a min_int64,
    div-le_self max_int64 (2 ^ 64 - b),
    div-le_self min_int64 (2 ^ 64 - b),
  )

  neg_neg :
      2 ^ 63 ≤ a
      → a < 2 ^ 64
      → 2 ^ 63 ≤ b
      → b < 2 ^ 64
      → mul_overflows a b ≡ ltb max_int64 ((2 ^ 64 - a) * (2 ^ 64 - b))
  unfolding mul_overflows biased
  neg_neg ha ha' hb hb' = ground (
    arith,
    ltb-div (2 ^ 64 - b) (2 ^ 64 - a) max_int64,
    div-le_self max_int64 (2 ^ 64 - b),
    div-le_self min_int64 (2 ^ 64 - b),
  )

  -- A product of patterns, from the product of absolute values.
  word_pos_neg : b ≤ 2 ^ 64 → a * b + a * (2 ^ 64 - b) ≡ 2 ^ 64 * a
  word_pos_neg h = omega (arith, mul-add a b (2 ^ 64 - b), ap (λ t. a * t) (add-sub_self b h))

  word_neg_pos : a ≤ 2 ^ 64 → a * b + (2 ^ 64 - a) * b ≡ 2 ^ 64 * b
  word_neg_pos h = omega (arith, add-mul a (2 ^ 64 - a) b, ap (λ t. t * b) (add-sub_self a h))

word_neg_neg :
    (a b : ℕ)
    → a ≤ 2 ^ 64
    → b ≤ 2 ^ 64
    → a * b + 2 ^ 64 * (2 ^ 64 - a) + 2 ^ 64 * (2 ^ 64 - b)
      ≡ 2 ^ 64 * 2 ^ 64 + (2 ^ 64 - a) * (2 ^ 64 - b)
word_neg_neg a b h k = omega (arith, word_neg_pos a b h, word_pos_neg (2 ^ 64 - a) b k)

-- 2 ^ 64 more than the product of two int64
unfoldable pub product : ℕ → ℕ → ℕ
product a b =
    if is_negative a
    then if is_negative b then 2 ^ 64 + (2 ^ 64 - a) * (2 ^ 64 - b) else 2 ^ 64 - (2 ^ 64 - a) * b
    else if is_negative b
    then 2 ^ 64 - a * (2 ^ 64 - b)
    else 2 ^ 64 + a * b

module _ (a b : ℕ) where
  abbrev IsExact : Type 0
  IsExact = eval_int_mul a b ≡ exact overflow_in_multiplication (product a b)

  exact_pos_pos : a < 2 ^ 63 → b < 2 ^ 63 → IsExact
  unfolding eval_int_mul exact product
  exact_pos_pos ha hb = elim (Bool-cases (b == 0)) [
    | inl e ↦ ground (arith, e, mul-zero a)
    | inr e ↦ ground (arith, pos_pos a b, e)
  ]

  exact_neg_pos : 2 ^ 63 ≤ a → a < 2 ^ 64 → b < 2 ^ 63 → IsExact
  unfolding eval_int_mul exact product
  exact_neg_pos ha ha' hb = ground (arith, neg_pos a b, word_neg_pos a b)

  exact_pos_neg : a < 2 ^ 63 → 2 ^ 63 ≤ b → b < 2 ^ 64 → IsExact
  unfolding eval_int_mul exact product
  exact_pos_neg ha hb hb' = ground (arith, pos_neg a b, word_pos_neg a b)

  exact_neg_neg : 2 ^ 63 ≤ a → a < 2 ^ 64 → 2 ^ 63 ≤ b → b < 2 ^ 64 → IsExact
  unfolding eval_int_mul exact product
  exact_neg_neg ha ha' hb hb' = ground (arith, neg_neg a b, word_neg_neg a b)

pub eval_int_mul-exact :
    (a b : ℕ)
    → a < 2 ^ 64
    → b < 2 ^ 64
    → eval_int_mul a b ≡ exact overflow_in_multiplication (product a b)
eval_int_mul-exact a b ha hb =
    ground (arith, exact_pos_pos a b, exact_neg_pos a b, exact_pos_neg a b, exact_neg_neg a b)
