-- ===== src/Query/Folding/Meaning.antt =====
-- Folding keeps what an expression gives on every row.
use test_db.Prelude.{◌≡◌, refl, ◌∙◌, ap, arith}
use test_db.Common.Types.{Value}
use test_db.Common.Printing.{Runtime}
use test_db.Query.Compare.{BinaryOp, op_and, op_or}
use test_db.Query.Ast.{
  UnaryOp, op_not, Expression, literal_expr, binary_expr, unary_expr, func_expr,
}
use test_db.Query.Eval.{RowValues, eval_expr, eval_binary_expr, eval_unary_expr}
use test_db.Query.Folding.{fold_literals, fold_binary_expr, fold_unary_expr, fold_expr}

module _ (rt : Runtime) (row : RowValues) where
  eval-fold_literals :
      (op : BinaryOp) (l r : Value)
      → eval_expr rt (fold_literals op l r) row
        ≡ eval_expr rt (binary_expr op (literal_expr l) (literal_expr r)) row
  unfolding eval_expr fold_literals
  eval-fold_literals op_and l r = ground arith
  eval-fold_literals op_or l r = ground arith
  eval-fold_literals _ l r = ground arith

  eval-fold_binary_expr :
      (op : BinaryOp) (l r : Expression)
      → eval_expr rt (fold_binary_expr op l r) row
        ≡ eval_binary_expr rt op (eval_expr rt l row) (eval_expr rt r row)
  unfolding fold_binary_expr eval_expr
  eval-fold_binary_expr op (literal_expr l) (literal_expr r) = eval-fold_literals op l r
  eval-fold_binary_expr op l r = refl

  eval-fold_unary_expr :
      (op : UnaryOp) (e : Expression)
      → eval_expr rt (fold_unary_expr op e) row ≡ eval_unary_expr rt op (eval_expr rt e row)
  unfolding fold_unary_expr eval_expr
  eval-fold_unary_expr op_not (literal_expr v) = ground arith
  eval-fold_unary_expr op e = refl

-- The folded expression gives on every row what the expression gives: the same value, or the same error.
pub eval-fold :
    (rt : Runtime) (row : RowValues) (e : Expression)
    → eval_expr rt (fold_expr e) row ≡ eval_expr rt e row
unfolding fold_expr
eval-fold rt row (binary_expr op l r) =
    eval-fold_binary_expr rt row op (fold_expr l) (fold_expr r)
    ∙ ap (λ x. eval_binary_expr rt op x (eval_expr rt (fold_expr r) row)) (eval-fold rt row l)
    ∙ ap (λ y. eval_binary_expr rt op (eval_expr rt l row) y) (eval-fold rt row r)
    ∙ (unfold eval_expr in refl)
eval-fold rt row (unary_expr op e) =
    eval-fold_unary_expr rt row op (fold_expr e)
    ∙ ap (eval_unary_expr rt op) (eval-fold rt row e)
    ∙ (unfold eval_expr in refl)
eval-fold rt row (func_expr name args) = unfold eval_expr in refl
eval-fold rt row _ = refl
