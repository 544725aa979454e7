-- ===== src/Query/Compare.antt =====
-- pkg/query/compare.go: comparison of values, and the operators of the sparse index.
pub mod Flip
pub mod Ordered
pub mod Like
mod Runs
use test_db.Prelude.{Bool, true, false, not, Option, none, some, ◌≡◌, refl}
use test_db.Common.Types.{Value, equal, less}
use test_db.Index.Sparse.{
  PredicateOp, op_equal, op_not_equal, op_less, op_less_equal, op_greater, op_greater_equal,
}

pub data BinaryOp : Type 0 where
  op_eq op_ne op_lt op_le op_gt op_ge op_and op_or op_add op_sub op_mul op_div op_like : BinaryOp

unfoldable pub compare_values : BinaryOp → Value → Value → Bool
unfolding equal less
compare_values op_eq v w = equal v w
compare_values op_ne v w = not (equal v w)
compare_values op_lt v w = less v w
compare_values op_gt v w = less w v
compare_values op_le v w = not (less w v)
compare_values op_ge v w = not (less v w)
compare_values _ v w = false

unfoldable pub is_comparison_op : BinaryOp → Bool
is_comparison_op op_eq = true
is_comparison_op op_ne = true
is_comparison_op op_lt = true
is_comparison_op op_le = true
is_comparison_op op_gt = true
is_comparison_op op_ge = true
is_comparison_op _ = false

unfoldable pub op_to_index_op : BinaryOp → Option PredicateOp
op_to_index_op op_eq = some op_equal
op_to_index_op op_ne = some op_not_equal
op_to_index_op op_lt = some op_less
op_to_index_op op_le = some op_less_equal
op_to_index_op op_gt = some op_greater
op_to_index_op op_ge = some op_greater_equal
op_to_index_op _ = none

unfoldable pub flip_comparison_op : BinaryOp → Option BinaryOp
flip_comparison_op op_lt = some op_gt
flip_comparison_op op_le = some op_ge
flip_comparison_op op_gt = some op_lt
flip_comparison_op op_ge = some op_le
flip_comparison_op op_eq = some op_eq
flip_comparison_op op_ne = some op_ne
flip_comparison_op _ = none

-- On a type with Go's tests ==, < and <=.
unfoldable pub compare_ordered {ℓ} :
    {A : Type ℓ} → (A → A → Bool) → (A → A → Bool) → (A → A → Bool) → BinaryOp → A → A → Bool
compare_ordered eq lt le op_eq a b = eq a b
compare_ordered eq lt le op_ne a b = not (eq a b)
compare_ordered eq lt le op_lt a b = lt a b
compare_ordered eq lt le op_le a b = le a b
compare_ordered eq lt le op_gt a b = lt b a
compare_ordered eq lt le op_ge a b = le b a
compare_ordered eq lt le _ a b = false
