-- ===== src/Query/Compare/Flip.antt =====
-- Comparisons with their operands exchanged.
use test_db.Prelude.{ℕ, ◌≡◌, refl, sym, ap, ◌∙◌, true, some, arith, str_eq_sym}
use test_db.Common.Float.{float64_eq}
use test_db.Common.Types.{
  DataType, bool, int64, float64, string, timestamp, Value, equal, type_eq, is_float_int_cross_type,
  same_type_eq, float64_value, number, of_number,
}
use test_db.Common.Types.Numbers.{of_number-number}
use test_db.Query.Compare.{
  BinaryOp, op_eq, op_ne, op_lt, op_le, op_gt, op_ge, compare_values, flip_comparison_op,
}

float64_eq_sym : (a b : ℕ) → float64_eq a b ≡ float64_eq b a
unfolding float64_eq
float64_eq_sym a b = ground arith

same_type_eq_sym : (t : DataType) (v w : Value) → same_type_eq t v w ≡ same_type_eq t w v
unfolding same_type_eq
same_type_eq_sym bool v w = ground arith
same_type_eq_sym int64 v w = ground arith
same_type_eq_sym float64 v w = float64_eq_sym v.float w.float
same_type_eq_sym string v w = str_eq_sym v.str w.str
same_type_eq_sym timestamp v w = ground arith
same_type_eq_sym _ v w = refl

crossed_sym : (a b : DataType) → is_float_int_cross_type a b ≡ is_float_int_cross_type b a
unfolding is_float_int_cross_type
crossed_sym a b = ground arith

type_eq_sym : (a b : DataType) → type_eq a b ≡ type_eq b a
unfolding type_eq
type_eq_sym a b = ground arith

-- Types of one number are compared alike.
same_number :
    (s t : DataType) (v w : Value) → type_eq s t ≡ true → same_type_eq s v w ≡ same_type_eq t w v
same_number s t v w h =
    let numbers : number s ≡ number t = unfold type_eq in ground (arith, h) in
    let same : s ≡ t = sym (of_number-number s) ∙ ap of_number numbers ∙ of_number-number t in
    ap (λ a. same_type_eq a v w) same ∙ same_type_eq_sym t v w

equal_sym : (v w : Value) → equal v w ≡ equal w v
unfolding equal
equal_sym v w = ground (
  arith,
  crossed_sym v.typ w.typ,
  type_eq_sym v.typ w.typ,
  float64_eq_sym (float64_value v) (float64_value w),
  same_number v.typ w.typ v w,
)

-- A comparison with its operands exchanged, under the flipped operator, gives the same result, for
-- every pair of values.
pub compare_values-flip :
    (op flipped : BinaryOp) (v w : Value)
    → flip_comparison_op op ≡ some flipped
    → compare_values flipped w v ≡ compare_values op v w
unfolding compare_values flip_comparison_op
compare_values-flip op_lt flipped v w h = ground (arith, h)
compare_values-flip op_le flipped v w h = ground (arith, h)
compare_values-flip op_gt flipped v w h = ground (arith, h)
compare_values-flip op_ge flipped v w h = ground (arith, h)
compare_values-flip op_eq flipped v w h = ground (arith, h, equal_sym v w)
compare_values-flip op_ne flipped v w h = ground (arith, h, equal_sym v w)
compare_values-flip _ flipped v w h = cc
