-- ===== src/Query/Compare/Runs.antt =====
-- Comparison of values (pkg/query/compare.go) at concrete inputs.
use test_db.Prelude.{◌≡◌, refl, true}
use test_db.Common.Types.{Value, int64, float64, zero_value}
use test_db.Common.Float.{rank, is_nan, float64_of_int64, float64_ltb}
use test_db.Query.Compare.{op_le, op_ge, op_lt, compare_values, flip_comparison_op}
use test_db.Query.Compare.Flip.{compare_values-flip}

abbrev three : Value
three = record (zero_value int64) { int = 3 }

-- The pattern of 5.0.
abbrev five : Value
five = record (zero_value float64) { float = 4617315517961601024 }

across_types : compare_values op_lt three five ≡ true
unfolding compare_values rank is_nan float64_of_int64 float64_ltb
across_types = refl

compare_values-flip_example : compare_values op_ge five three ≡ compare_values op_le three five
unfolding flip_comparison_op
compare_values-flip_example = compare_values-flip op_le op_ge three five refl

abbrev nan : Value
nan = record (zero_value float64) { float = 9221120237041090560 }

-- NaN <= 5.0 holds for the values, since 5.0 < NaN does not.
nan_at_most : compare_values op_le nan five ≡ true
unfolding compare_values rank is_nan float64_ltb
nan_at_most = refl
