-- ===== src/Query/Runs.antt =====
-- Expressions, their folding and their predicates (pkg/query) at concrete inputs.
use test_db.Prelude.{
  ℕ, ◌+◌, ◌-◌, ◌*◌, ◌^◌, ◌≡◌, refl, arith, Bool, true, false, ◌&&◌, some, [], ◌∷◌, Str, inl, inr,
  find, str_compare,
}
use test_db.Common.Float.{biased}
use test_db.Common.Types.{int64, bool, null, zero_value, is_int_family}
use test_db.Common.Printing.{Runtime}
use test_db.Index.Sparse.{op_less, Column, can_skip, build_from_column_vector}
use test_db.Index.Sparse.Order.{integers}
use test_db.Query.Compare.{op_lt, op_and, op_or, op_add}
use test_db.Query.Compare.Like.{like_match}
use test_db.Query.Compare.Like.Reference.{matches}
use test_db.Query.Compare.Like.Decided.{like_match-matches}
use test_db.Query.Compare.Like.Ends.{like_match-Ended}
use test_db.Query.Ast.{Expression, column_expr, literal_expr, binary_expr, func_expr, no_args}
use test_db.Query.Arith.{
  ok, err, overflow_in_addition, arith_add, arith_mul, eval_int_arithmetic, eval_int_add,
}
use test_db.Query.Arith.Integers.{eval_int_arithmetic-exact, represented, integer}
use test_db.Query.Eval.{RowValues, eval_expr, eval_row_predicate}
use test_db.Query.Folding.{fold_expr}
use test_db.Query.Folding.Meaning.{eval-fold}
use test_db.Query.Predicates.{extract_column_predicates, split_predicate_by_aggregate, can_push}
use test_db.Query.Predicates.Conjuncts.{split_predicate-holds}
use test_db.Query.Predicates.Pruning.{skipped_segment}

-- A runtime that prints every number as "1", and adds patterns.
abbrev runtime : Runtime
runtime = record {
  float64_add = λ a b. a + b;
  float64_sub = λ a b. a - b;
  float64_mul = λ a b. a * b;
  float64_div = λ a b. a;
  float64_neg = λ a. a;
  runes = λ s. s;
  format_int64 = λ n. b'1' ∷ [];
  format_float64 = λ n. b'1' ∷ [];
  format_date = λ n. b'1' ∷ [];
  format_time = λ n. b'1' ∷ [];
}

abbrev int_literal : ℕ → Expression
int_literal n = literal_expr (record (zero_value int64) { int = n })

abbrev name_a : Str
name_a = b'a' ∷ []

abbrev name_n : Str
name_n = b'n' ∷ []

-- n = 12
abbrev row : RowValues
row = (name_n, record (zero_value int64) { int = 12 }) ∷ []

-- n < 7 AND (2 < 3 OR f())
abbrev condition : Expression
condition = binary_expr op_and (binary_expr op_lt (column_expr name_n int64) (int_literal 7)) (
    binary_expr op_or (binary_expr op_lt (int_literal 2) (int_literal 3))
      (func_expr name_a no_args))

eval-fold_example : eval_expr runtime (fold_expr condition) row ≡ eval_expr runtime condition row
eval-fold_example = eval-fold runtime row condition

-- The function is not reached on the right of a true operand.
short_circuit :
    eval_expr runtime
      (binary_expr op_or
        (binary_expr op_lt (int_literal 2) (int_literal 3))
        (func_expr name_a no_args))
      row
    ≡ ok (record (zero_value bool) { int = 1 })
unfolding eval_expr biased
short_circuit = refl

adds_up :
    eval_expr runtime (binary_expr op_add (column_expr name_n int64) (int_literal 30)) row
    ≡ ok (record (zero_value int64) { int = 42 })
unfolding eval_expr eval_int_arithmetic biased str_compare eval_int_add
adds_up = refl

-- The greatest int64, and one.
overflows : eval_int_arithmetic arith_add (2 ^ 63 - 1) 1 ≡ err overflow_in_addition
unfolding eval_int_arithmetic biased eval_int_add
overflows = refl

eval_int_arithmetic-exact_example :
    eval_int_arithmetic arith_mul (2 ^ 64 - 3) 5
    ≡ represented arith_mul (integer arith_mul (2 ^ 64 - 3) 5)
eval_int_arithmetic-exact_example =
    eval_int_arithmetic-exact arith_mul (2 ^ 64 - 3) 5 (omega arith) (omega arith)

-- "abcab" LIKE "%a_"
abbrev text : Str
text = b'a' ∷ b'b' ∷ b'c' ∷ b'a' ∷ b'b' ∷ []

abbrev pattern_tail : Str
pattern_tail = b'%' ∷ b'a' ∷ b'_' ∷ []

like_runs : like_match text pattern_tail ≡ some true
unfolding like_match
like_runs = refl

-- A '%' in the text takes the pattern's '%' as a literal: "%abc" LIKE "%c".
like_percent_in_text : like_match (b'%' ∷ b'a' ∷ b'b' ∷ b'c' ∷ []) (b'%' ∷ b'c' ∷ []) ≡ some false
unfolding like_match
like_percent_in_text = refl

like_match-matches_example : like_match text pattern_tail ≡ some (matches pattern_tail text)
like_match-matches_example =
    like_match-matches text pattern_tail (refl, (refl, (refl, (refl, (refl, tt)))))

like_match-Ended_example : (b : Bool) × (like_match text pattern_tail ≡ some b)
like_match-Ended_example = like_match-Ended text pattern_tail

split_predicate-holds_example :
    (eval_row_predicate runtime (some condition) row ≡ (
      eval_row_predicate runtime (split_predicate_by_aggregate condition (name_a ∷ [])).0 row
      && eval_row_predicate runtime (split_predicate_by_aggregate condition (name_a ∷ [])).1 row))
    × ((e : Expression)
        → (split_predicate_by_aggregate condition (name_a ∷ [])).0 ≡ some e
        → can_push (name_a ∷ []) e ≡ true)
split_predicate-holds_example = split_predicate-holds runtime row condition (name_a ∷ [])

-- 7, NULL and 12.
abbrev cells : Column
cells =
    (false, record (zero_value int64) { int = 7 })
    ∷ (true, record (zero_value null) { valid = false })
    ∷ (false, record (zero_value int64) { int = 12 })
    ∷ []

skipped_segment_example : eval_row_predicate runtime (some condition) row ≡ false
unfolding can_skip build_from_column_vector biased is_int_family extract_column_predicates find
    str_compare
skipped_segment_example =
    skipped_segment runtime (some condition) row 0
      (record { column_name = name_n; op = op_less; value = record (zero_value int64) { int = 7 } })
      integers 1 2 cells [] 2 (false, record (zero_value int64) { int = 12 }) refl
      (inr (refl, refl), (inl refl, (inr (refl, refl), tt))) (refl, refl) refl refl refl
