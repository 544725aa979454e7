-- ===== src/Query/Compare/Ordered.antt =====
-- The comparison of the elements of a column, and that of their values.
use test_db.Prelude.{
  ℕ, ◌≡◌, refl, Bool, not, arith, Str, str_eq, str_ltb, str_leb, str_compare_swap, leb, ◌==◌,
}
use test_db.Common.Float.{biased, int64_ltb}
use test_db.Common.Types.{new_int64, new_string, equal, less, type_eq, number}
use test_db.Query.Compare.{
  BinaryOp, op_eq, op_ne, op_lt, op_le, op_gt, op_ge, compare_values, compare_ordered,
}

-- a <= b on int64
abbrev pub int64_leb : ℕ → ℕ → Bool
int64_leb a b = leb (biased a) (biased b)

int64_leb-not : (a b : ℕ) → int64_leb a b ≡ not (int64_ltb b a)
int64_leb-not a b = ground arith

-- On int64 elements the fast path gives what the comparison of their values gives, for every
-- operator.
pub compare_ordered-int64 :
    (op : BinaryOp) (a b : ℕ)
    → compare_ordered (λ x y. x == y) int64_ltb int64_leb op a b
      ≡ compare_values op (new_int64 a) (new_int64 b)
unfolding compare_ordered compare_values equal less new_int64
compare_ordered-int64 op_eq a b = refl
compare_ordered-int64 op_ne a b = refl
compare_ordered-int64 op_lt a b = refl
compare_ordered-int64 op_le a b = int64_leb-not a b
compare_ordered-int64 op_gt a b = refl
compare_ordered-int64 op_ge a b = int64_leb-not b a
compare_ordered-int64 _ a b = refl

str_leb-not : (a b : Str) → str_leb a b ≡ not (str_ltb b a)
str_leb-not a b = ground (arith, str_compare_swap a b)

-- On string elements the fast path gives what the comparison of their values gives, for every
-- operator.
pub compare_ordered-string :
    (op : BinaryOp) (a b : Str)
    → compare_ordered str_eq str_ltb str_leb op a b
      ≡ compare_values op (new_string a) (new_string b)
unfolding compare_ordered compare_values equal less new_string type_eq number
compare_ordered-string op_eq a b = refl
compare_ordered-string op_ne a b = refl
compare_ordered-string op_lt a b = refl
compare_ordered-string op_le a b = str_leb-not a b
compare_ordered-string op_gt a b = refl
compare_ordered-string op_ge a b = str_leb-not b a
compare_ordered-string _ a b = refl
