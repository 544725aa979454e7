-- ===== src/Query/Eval.antt =====
-- pkg/query/executor_expr.go: the value of an expression on a row.
use test_db.Prelude.{
  ℕ, Bool, true, false, not, ◌||◌, Option, none, some, Str, [], ◌∷◌, ◌==◌, if◌then◌else◌, Dict,
  find,
}
use test_db.Common.Float.{float64_of_int64, float64_eq}
use test_db.Common.Types.{
  DataType, bool, int64, int8, int16, int32, uint64, date, float64, string, Value, is_int_family,
  type_eq, new_null, new_bool, new_float64, new_int_family_value,
}
use test_db.Common.Printing.{Runtime}
use test_db.Query.Compare.{
  BinaryOp, op_and, op_or, op_add, op_sub, op_mul, op_div, op_like, is_comparison_op,
  compare_values,
}
use test_db.Query.Compare.Like.{match_like}
use test_db.Query.Ast.{
  UnaryOp, op_not, op_neg, Expression, column_expr, resolved_column_expr, literal_expr, binary_expr,
  unary_expr, func_expr, star_expr,
}
use test_db.Query.Arith.{
  Result, ok, err, ◌>>=◌, unsupported_binary_op, unsupported_unary_op, function_not_supported,
  neg64, ArithOp, arith_add, arith_sub, arith_mul, arith_div, eval_int_arithmetic,
}

-- The values of a row, by column.
abbrev pub RowValues : Type 0
RowValues = Dict Value

-- `x != 0` on float64, where NaN is no zero.
abbrev float64_nonzero : ℕ → Bool
float64_nonzero x = not (float64_eq x 0)

-- The `switch v.Typ` of isTruthyValue.
unfoldable pub typed_truth : DataType → Value → Bool
unfolding float64_eq
typed_truth bool v = not (v.int == 0)
typed_truth int64 v = not (v.int == 0)
typed_truth int8 v = not (v.int == 0)
typed_truth int16 v = not (v.int == 0)
typed_truth int32 v = not (v.int == 0)
typed_truth uint64 v = not (v.int == 0)
typed_truth date v = not (v.int == 0)
typed_truth float64 v = float64_nonzero v.float
typed_truth string v = elim v.str [ [] ↦ false | x ∷ xs ↦ true ]
typed_truth _ v = true

unfoldable pub is_truthy_value : Value → Bool
unfolding typed_truth
is_truthy_value v = if v.valid then typed_truth v.typ v else false

unfoldable pub to_float64 : Value → ℕ
unfolding type_eq is_int_family
to_float64 v =
    if type_eq v.typ float64
    then v.float
    else if is_int_family v.typ || type_eq v.typ bool
    then float64_of_int64 v.int
    else 0

unfoldable pub eval_comparison_op : BinaryOp → Value → Value → Option Value
unfolding is_comparison_op compare_values new_bool
eval_comparison_op op l r =
    if is_comparison_op op then some (new_bool (compare_values op l r)) else none

-- `right` is what evaluating the right operand gives; it counts only where the code evaluates it.
unfoldable pub eval_logical_op : BinaryOp → Value → Result → Option Result
unfolding is_truthy_value new_bool
eval_logical_op op_and l right = some (
    if not (is_truthy_value l)
    then ok (new_bool false)
    else (right >>= λ r. ok (new_bool (is_truthy_value r))))
eval_logical_op op_or l right = some (
    if is_truthy_value l
    then ok (new_bool true)
    else (right >>= λ r. ok (new_bool (is_truthy_value r))))
eval_logical_op op l right = none

unfoldable pub eval_column : Str → RowValues → Result
unfolding find new_null
eval_column name row = elim (find name row) [ none ↦ ok new_null | some v ↦ ok v ]

module _ (rt : Runtime) where
  unfoldable pub eval_float_arithmetic : ArithOp → ℕ → ℕ → Result
  unfolding new_null new_float64
  eval_float_arithmetic arith_add a b = ok (new_float64 (rt.float64_add a b))
  eval_float_arithmetic arith_sub a b = ok (new_float64 (rt.float64_sub a b))
  eval_float_arithmetic arith_mul a b = ok (new_float64 (rt.float64_mul a b))
  eval_float_arithmetic arith_div a b =
      if float64_eq b 0 then ok new_null else ok (new_float64 (rt.float64_div a b))

  unfoldable pub eval_arithmetic : ArithOp → Value → Value → Result
  unfolding eval_float_arithmetic to_float64
  eval_arithmetic op l r =
      if type_eq l.typ float64 || type_eq r.typ float64
      then eval_float_arithmetic op (to_float64 l) (to_float64 r)
      else eval_int_arithmetic op l.int r.int

  unfoldable pub eval_arithmetic_op : BinaryOp → Value → Value → Result
  unfolding eval_arithmetic
  eval_arithmetic_op op_add l r = eval_arithmetic arith_add l r
  eval_arithmetic_op op_sub l r = eval_arithmetic arith_sub l r
  eval_arithmetic_op op_mul l r = eval_arithmetic arith_mul l r
  eval_arithmetic_op op_div l r = eval_arithmetic arith_div l r
  eval_arithmetic_op op l r = err (unsupported_binary_op op)

  -- Two values under an operator that is not logical.
  unfoldable pub eval_values : BinaryOp → Value → Value → Result
  unfolding eval_comparison_op eval_arithmetic_op match_like new_null new_bool
  eval_values op l r = if not l.valid || not r.valid then ok new_null else elim op [
    | op_like ↦ ok (new_bool (match_like rt l r))
    | other ↦ elim (eval_comparison_op other l r) [
      | some v ↦ ok v
      | none ↦ eval_arithmetic_op other l r
    ]
  ]

  unfoldable pub eval_binary_expr : BinaryOp → Result → Result → Result
  unfolding eval_logical_op eval_values
  eval_binary_expr op left right = left >>= λ l. elim (eval_logical_op op l right) [
    | some result ↦ result
    | none ↦ right >>= λ r. eval_values op l r
  ]

  unfoldable pub eval_unary_expr : UnaryOp → Result → Result
  unfolding is_truthy_value new_null new_bool new_float64 new_int_family_value
  eval_unary_expr op_not operand = operand >>= λ v. ok (new_bool (not (is_truthy_value v)))
  eval_unary_expr op_neg operand = operand >>= λ v.
      if not v.valid
      then ok new_null
      else if is_int_family v.typ
      then ok (new_int_family_value v.typ (neg64 v.int))
      else if type_eq v.typ float64
      then ok (new_float64 (rt.float64_neg v.float))
      else err (unsupported_unary_op op_neg)

  unfoldable pub eval_expr : Expression → RowValues → Result
  unfolding eval_column eval_binary_expr eval_unary_expr new_null
  eval_expr (literal_expr v) row = ok v
  eval_expr (resolved_column_expr name i t) row = eval_column name row
  eval_expr (column_expr name t) row = eval_column name row
  eval_expr (binary_expr op l r) row = eval_binary_expr op (eval_expr l row) (eval_expr r row)
  eval_expr (unary_expr op e) row = eval_unary_expr op (eval_expr e row)
  eval_expr (func_expr name args) row = err (function_not_supported name)
  eval_expr star_expr row = ok new_null

  -- `none` is a statement without WHERE.
  unfoldable pub eval_row_predicate : Option Expression → RowValues → Bool
  unfolding eval_expr is_truthy_value
  eval_row_predicate none row = true
  eval_row_predicate (some e) row = elim (eval_expr e row) [
    | ok v ↦ is_truthy_value v
    | err x ↦ false
  ]
