-- ===== src/Query/Arith.antt =====
-- pkg/query/executor_expr.go: arithmetic on int64, whose values are 64-bit patterns.
pub mod Exact
pub mod Product
pub mod Integers
use test_db.Prelude.{
  ℕ, ◌+◌, ◌-◌, ◌*◌, ◌/◌, ◌%◌, ◌^◌, Bool, true, false, not, ◌&&◌, ◌||◌, ◌==◌, Str, if◌then◌else◌,
}
use test_db.Common.Float.{int64_ltb, is_negative}
use test_db.Common.Types.{Value, new_null, new_int64}
use test_db.Query.Compare.{BinaryOp}
use test_db.Query.Ast.{UnaryOp}

pub data Error : Type 0 where
  overflow_in_addition overflow_in_subtraction overflow_in_multiplication overflow_in_division :
      Error
  unsupported_binary_op : BinaryOp → Error
  unsupported_unary_op : UnaryOp → Error
  function_not_supported : Str → Error

-- A value, or an error.
pub data Result : Type 0 where
  ok : Value → Result
  err : Error → Result

infixl 5 ◌>>=◌
abbrev pub ◌>>=◌ : Result → (Value → Result) → Result
ok v >>= f = f v
err e >>= f = err e

-- The operators of int64, which wrap around; the quotient is cut towards zero.
abbrev pub add64 : ℕ → ℕ → ℕ
add64 a b = (a + b) % 2 ^ 64

abbrev pub sub64 : ℕ → ℕ → ℕ
sub64 a b = (a + (2 ^ 64 - b)) % 2 ^ 64

abbrev pub mul64 : ℕ → ℕ → ℕ
mul64 a b = a * b % 2 ^ 64

abbrev pub neg64 : ℕ → ℕ
neg64 a = sub64 0 a

-- The absolute value, as a number.
abbrev pub abs64 : ℕ → ℕ
abs64 a = if is_negative a then 2 ^ 64 - a else a

abbrev pub div64 : ℕ → ℕ → ℕ
div64 a b =
    let q = abs64 a / abs64 b in
    if (is_negative a && not (is_negative b)) || (not (is_negative a) && is_negative b)
    then neg64 q
    else q % 2 ^ 64

-- math.MaxInt64, math.MinInt64 and -1
abbrev pub max_int64 : ℕ
max_int64 = 2 ^ 63 - 1

abbrev pub min_int64 : ℕ
min_int64 = 2 ^ 63

abbrev pub minus_one : ℕ
minus_one = 2 ^ 64 - 1

unfoldable pub eval_int_add : ℕ → ℕ → Result
unfolding new_int64
eval_int_add a b =
    if (int64_ltb 0 b && int64_ltb (sub64 max_int64 b) a)
      || (int64_ltb b 0 && int64_ltb a (sub64 min_int64 b))
    then err overflow_in_addition
    else ok (new_int64 (add64 a b))

unfoldable pub eval_int_sub : ℕ → ℕ → Result
unfolding new_int64
eval_int_sub a b =
    if (int64_ltb b 0 && int64_ltb (add64 max_int64 b) a)
      || (int64_ltb 0 b && int64_ltb a (add64 min_int64 b))
    then err overflow_in_subtraction
    else ok (new_int64 (sub64 a b))

unfoldable pub mul_overflows : ℕ → ℕ → Bool
mul_overflows a b =
    if int64_ltb 0 b
    then int64_ltb (div64 max_int64 b) a || int64_ltb a (div64 min_int64 b)
    else if int64_ltb b 0
    then if b == minus_one
      then a == min_int64
      else int64_ltb (div64 min_int64 b) a || int64_ltb a (div64 max_int64 b)
    else false

unfoldable pub eval_int_mul : ℕ → ℕ → Result
unfolding new_int64
eval_int_mul a b =
    if not (b == 0) && mul_overflows a b
    then err overflow_in_multiplication
    else ok (new_int64 (mul64 a b))

pub data ArithOp : Type 0 where
  arith_add arith_sub arith_mul arith_div : ArithOp

unfoldable pub eval_int_arithmetic : ArithOp → ℕ → ℕ → Result
unfolding new_int64 new_null
eval_int_arithmetic arith_add a b = eval_int_add a b
eval_int_arithmetic arith_sub a b = eval_int_sub a b
eval_int_arithmetic arith_mul a b = eval_int_mul a b
eval_int_arithmetic arith_div a b =
    if b == 0
    then ok new_null
    else if b == minus_one && a == min_int64
    then err overflow_in_division
    else ok (new_int64 (div64 a b))
