-- ===== src/Query/Arith/Integers.antt =====
-- What arithmetic on int64 gives, in terms of the integers.
use native.Mathlib.Nat.{div-le_self, div-mul-le_self, mul-le-mul_left}
use test_db.Prelude.{
  ℕ, ◌+◌, ◌-◌, ◌/◌, ◌^◌, ◌<◌, ◌≤◌, ◌≡◌, arith, Option, none, some, ◌==◌, if◌then◌else◌, not, ◌&&◌,
  ◌||◌,
}
use test_db.Common.Float.{biased, is_negative}
use test_db.Common.Types.{new_null}
use test_db.Query.Arith.{
  Error, Result, ok, overflow_in_addition, overflow_in_subtraction, overflow_in_multiplication,
  overflow_in_division, ArithOp, arith_add, arith_sub, arith_mul, arith_div, abs64,
  eval_int_arithmetic,
}
use test_db.Query.Arith.Exact.{exact, eval_int_add-exact, eval_int_sub-exact}
use test_db.Query.Arith.Product.{product, eval_int_mul-exact}

-- 2 ^ 64 more than the quotient, cut towards zero
abbrev pub quotient : ℕ → ℕ → ℕ
quotient a b =
    if (is_negative a && not (is_negative b)) || (not (is_negative a) && is_negative b)
    then 2 ^ 64 - abs64 a / abs64 b
    else 2 ^ 64 + abs64 a / abs64 b

-- 2 ^ 64 more than the integer that an operation gives; a division by zero gives none.
abbrev pub integer : ArithOp → ℕ → ℕ → Option ℕ
integer arith_add a b = some (biased a + biased b)
integer arith_sub a b = some (biased a + 2 ^ 64 - biased b)
integer arith_mul a b = some (product a b)
integer arith_div a b = if b == 0 then none else some (quotient a b)

abbrev pub overflow : ArithOp → Error
overflow arith_add = overflow_in_addition
overflow arith_sub = overflow_in_subtraction
overflow arith_mul = overflow_in_multiplication
overflow arith_div = overflow_in_division

abbrev pub represented : ArithOp → Option ℕ → Result
represented op none = ok new_null
represented op (some t) = exact (overflow op) t

-- A quotient by two or more is at most half.
div-le-half : (m k : ℕ) → 2 ≤ k → m / k + m / k ≤ m
div-le-half m k h = omega (arith, div-mul-le_self m k, mul-le-mul_left (m / k) h)

quotient_lem :
    (a b : ℕ)
    → a < 2 ^ 64
    → b < 2 ^ 64
    → eval_int_arithmetic arith_div a b ≡ represented arith_div (integer arith_div a b)
unfolding eval_int_arithmetic exact
quotient_lem a b ha hb =
    ground (arith, div-le_self (abs64 a) (abs64 b), div-le-half (abs64 a) (abs64 b))

-- On int64, an operation gives exactly the integer that it stands for (the quotient cut towards zero),
-- its overflow error where no int64 is that integer, and NULL for a division by zero.
pub eval_int_arithmetic-exact :
    (op : ArithOp) (a b : ℕ)
    → a < 2 ^ 64
    → b < 2 ^ 64
    → eval_int_arithmetic op a b ≡ represented op (integer op a b)
unfolding eval_int_arithmetic
eval_int_arithmetic-exact arith_add a b ha hb = eval_int_add-exact a b ha hb
eval_int_arithmetic-exact arith_sub a b ha hb = eval_int_sub-exact a b ha hb
eval_int_arithmetic-exact arith_mul a b ha hb = eval_int_mul-exact a b ha hb
eval_int_arithmetic-exact arith_div a b ha hb = quotient_lem a b ha hb
