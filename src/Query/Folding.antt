-- ===== src/Query/Folding.antt =====
-- pkg/query/optimizer_constant_folding.go: constant expressions evaluated ahead of execution.
pub mod Meaning
use test_db.Prelude.{Bool, true, false, not, ◌&&◌, ◌||◌, Option, none, some, if◌then◌else◌}
use test_db.Common.Types.{Value, new_bool}
use test_db.Query.Compare.{BinaryOp, op_and, op_or, is_comparison_op, compare_values}
use test_db.Query.Ast.{
  UnaryOp, op_not, op_neg, Expression, column_expr, resolved_column_expr, literal_expr, binary_expr,
  unary_expr, func_expr, star_expr, Args, no_args, and_arg,
}
use test_db.Query.Eval.{is_truthy_value}

-- `none` is Go's nil.
unfoldable pub fold_comparison_ops : Value → Value → BinaryOp → Option Expression
unfolding is_comparison_op compare_values new_bool
fold_comparison_ops l r op =
    if is_comparison_op op then some (literal_expr (new_bool (compare_values op l r))) else none

unfoldable pub fold_logical_ops : Value → Value → BinaryOp → Option Expression
unfolding is_truthy_value new_bool
fold_logical_ops l r op_and =
    some (literal_expr (new_bool (is_truthy_value l && is_truthy_value r)))
fold_logical_ops l r op_or = some (literal_expr (new_bool (is_truthy_value l || is_truthy_value r)))
fold_logical_ops l r _ = none

-- What becomes of two literals.
fold_literals : BinaryOp → Value → Value → Expression
unfolding fold_comparison_ops fold_logical_ops
fold_literals op l r =
    if not l.valid || not r.valid
    then binary_expr op (literal_expr l) (literal_expr r)
    else elim (fold_comparison_ops l r op) [
      | some e ↦ e
      | none ↦ elim (fold_logical_ops l r op) [
        | some e ↦ e
        | none ↦ binary_expr op (literal_expr l) (literal_expr r)
      ]
    ]

unfoldable pub fold_binary_expr : BinaryOp → Expression → Expression → Expression
unfolding fold_literals
fold_binary_expr op (literal_expr l) (literal_expr r) = fold_literals op l r
fold_binary_expr op l r = binary_expr op l r

unfoldable pub fold_unary_expr : UnaryOp → Expression → Expression
unfolding is_truthy_value new_bool
fold_unary_expr op_not (literal_expr v) =
    if v.valid
    then literal_expr (new_bool (not (is_truthy_value v)))
    else unary_expr op_not (literal_expr v)
fold_unary_expr op e = unary_expr op e

unfoldable mutual
  unfolding fold_binary_expr fold_unary_expr

  pub fold_expr : Expression → Expression
  fold_expr (binary_expr op l r) = fold_binary_expr op (fold_expr l) (fold_expr r)
  fold_expr (unary_expr op e) = fold_unary_expr op (fold_expr e)
  fold_expr (func_expr name args) = func_expr name (fold_args args)
  fold_expr (column_expr name t) = column_expr name t
  fold_expr (resolved_column_expr name i t) = resolved_column_expr name i t
  fold_expr (literal_expr v) = literal_expr v
  fold_expr star_expr = star_expr

  pub fold_args : Args → Args
  fold_args no_args = no_args
  fold_args (and_arg e es) = and_arg (fold_expr e) (fold_args es)
