-- ===== src/Query/Ast.antt =====
-- pkg/query/ast.go and pkg/query/plan.go: the expressions of SQL statements.
use test_db.Prelude.{ℕ, Str}
use test_db.Common.Types.{DataType, Value}
use test_db.Query.Compare.{BinaryOp}

pub data UnaryOp : Type 0 where
  op_not op_neg : UnaryOp

mutual
  pub data Expression : Type 0 where
    column_expr : Str → DataType → Expression
    resolved_column_expr : Str → ℕ → DataType → Expression
    literal_expr : Value → Expression
    binary_expr : BinaryOp → Expression → Expression → Expression
    unary_expr : UnaryOp → Expression → Expression
    func_expr : Str → Args → Expression
    star_expr : Expression

  -- The arguments of a function.
  pub data Args : Type 0 where
    no_args : Args
    and_arg : Expression → Args → Args
