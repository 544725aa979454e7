-- ===== src/Query/Predicates.antt =====
-- pkg/query/optimizer_helpers.go and predicate_extractor.go: WHERE taken apart into conjuncts, and
-- into the comparisons of columns that the engine skips segments by; the conjuncts that
-- optimizer_predicate_pushdown.go moves below an aggregation.
pub mod References
pub mod Conjuncts
pub mod Comparisons
pub mod Pruning
use test_db.Prelude.{
  Bool, true, false, not, ◌&&◌, ◌||◌, Option, none, some, List, [], ◌∷◌, ◌++◌, Str, str_eq,
  if◌then◌else◌, filter,
}
use test_db.Common.Types.{Value}
use test_db.Index.Sparse.{PredicateOp}
use test_db.Query.Compare.{BinaryOp, op_and, is_comparison_op, op_to_index_op, flip_comparison_op}
use test_db.Query.Ast.{
  Expression, column_expr, resolved_column_expr, literal_expr, binary_expr, unary_expr, func_expr,
  star_expr, Args, no_args, and_arg,
}

-- pkg/storage/engine_ops.go
pub record ColumnPredicate : Type 0 where
  pub column_name : Str
  pub op : PredicateOp
  pub value : Value

unfoldable pub split_conjuncts : Expression → List Expression
split_conjuncts (binary_expr op_and l r) = split_conjuncts l ++ split_conjuncts r
split_conjuncts e = e ∷ []

-- for _, c := range conjuncts[1:]
unfoldable pub merge_from : Expression → List Expression → Expression
merge_from e [] = e
merge_from e (c ∷ cs) = merge_from (binary_expr op_and e c) cs

-- `none` is Go's nil.
unfoldable pub merge_conjuncts : List Expression → Option Expression
unfolding merge_from
merge_conjuncts [] = none
merge_conjuncts (c ∷ cs) = some (merge_from c cs)

unfoldable pub column_ref_name : Expression → Option Str
column_ref_name (column_expr [] t) = none
column_ref_name (column_expr (x ∷ xs) t) = some (x ∷ xs)
column_ref_name (resolved_column_expr [] i t) = none
column_ref_name (resolved_column_expr (x ∷ xs) i t) = some (x ∷ xs)
column_ref_name _ = none

-- A literal that is not NULL.
unfoldable pub literal_value : Expression → Option Value
literal_value (literal_expr v) = if v.valid then some v else none
literal_value _ = none

-- A predicate of an operator that the index has.
unfoldable pub indexed : Str → BinaryOp → Value → Option ColumnPredicate
unfolding op_to_index_op
indexed name op v = elim (op_to_index_op op) [
  | none ↦ none
  | some p ↦ some (record { column_name = name; op = p; value = v })
]

-- literal op column
unfoldable pub from_right : BinaryOp → Option Str → Option Value → Option ColumnPredicate
unfolding flip_comparison_op indexed
from_right op (some name) (some v) = elim (flip_comparison_op op) [
  | none ↦ none
  | some flipped ↦ indexed name flipped v
]
from_right op _ _ = none

-- column op literal, or the other way round
unfoldable pub from_left :
    BinaryOp → Option Str → Option Value → Option ColumnPredicate → Option ColumnPredicate
unfolding indexed
from_left op (some name) (some v) other = indexed name op v
from_left op _ _ other = other

unfoldable pub column_binary_to_predicate :
    BinaryOp → Expression → Expression → Option ColumnPredicate
unfolding is_comparison_op column_ref_name literal_value from_left from_right
column_binary_to_predicate op l r =
    if not (is_comparison_op op)
    then none
    else from_left op (column_ref_name l) (literal_value r)
        (from_right op (column_ref_name r) (literal_value l))

-- One round of the loop over the conjuncts.
unfoldable pub conjunct_predicate : Expression → Option ColumnPredicate
unfolding column_binary_to_predicate
conjunct_predicate (binary_expr op l r) = column_binary_to_predicate op l r
conjunct_predicate _ = none

-- preds = append(preds, colPred), where there is one
abbrev add_predicate : Option ColumnPredicate → List ColumnPredicate → List ColumnPredicate
add_predicate none preds = preds
add_predicate (some p) preds = p ∷ preds

unfoldable pub collect_predicates : List Expression → List ColumnPredicate
unfolding conjunct_predicate
collect_predicates [] = []
collect_predicates (c ∷ cs) = add_predicate (conjunct_predicate c) (collect_predicates cs)

unfoldable pub extract_column_predicates : Option Expression → List ColumnPredicate
unfolding split_conjuncts collect_predicates
extract_column_predicates none = []
extract_column_predicates (some e) = collect_predicates (split_conjuncts e)

-- Whether a name is among others.
unfoldable pub named : Str → List Str → Bool
named name [] = false
named name (x ∷ xs) = str_eq x name || named name xs

-- seen[name] = true
see : Str → List Str → List Str
unfolding named
see name seen = if named name seen then seen else name ∷ seen

-- `seen` is a set: the order of Go's map is not fixed, and only membership is asked for.
unfoldable mutual
  unfolding see

  pub collect_column_refs_into : Expression → List Str → List Str
  collect_column_refs_into (column_expr name t) seen = see name seen
  collect_column_refs_into (resolved_column_expr name i t) seen = see name seen
  collect_column_refs_into (binary_expr op l r) seen =
      collect_column_refs_into r (collect_column_refs_into l seen)
  collect_column_refs_into (unary_expr op e) seen = collect_column_refs_into e seen
  collect_column_refs_into (func_expr name args) seen = collect_args args seen
  collect_column_refs_into (literal_expr v) seen = seen
  collect_column_refs_into star_expr seen = seen

  pub collect_args : Args → List Str → List Str
  collect_args no_args seen = seen
  collect_args (and_arg e es) seen = collect_args es (collect_column_refs_into e seen)

unfoldable pub collect_column_refs : Expression → List Str
unfolding collect_column_refs_into
collect_column_refs e = collect_column_refs_into e []

-- Whether one of some names is among others.
unfoldable pub any_named : List Str → List Str → Bool
unfolding named
any_named [] names = false
any_named (c ∷ cs) names = named c names || any_named cs names

-- `agg_cols` holds the printed forms of the groupings and of the aggregates.
unfoldable pub can_push : List Str → Expression → Bool
unfolding any_named collect_column_refs
can_push agg_cols c = not (any_named (collect_column_refs c) agg_cols)

unfoldable pub split_predicate_by_aggregate :
    Expression → List Str → Option Expression × Option Expression
unfolding split_conjuncts merge_conjuncts can_push
split_predicate_by_aggregate cond agg_cols =
    let conjuncts = split_conjuncts cond in
    (
      merge_conjuncts (filter (can_push agg_cols) conjuncts),
      merge_conjuncts (filter (λ c. not (can_push agg_cols c)) conjuncts),
    )
