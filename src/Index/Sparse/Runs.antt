-- ===== src/Index/Sparse/Runs.antt =====
-- The sparse index (pkg/index/sparse.go) at concrete inputs.
use test_db.Prelude.{ℕ, ◌≡◌, refl, true, false, [], ◌∷◌, ◌+◌, ◌*◌, ◌^◌, inl, inr}
use test_db.Common.Types.{Value, int64, float64, null, zero_value, is_int_family}
use test_db.Common.Float.{biased, is_nan, rank, float64_ltb}
use test_db.Index.Sparse.{
  op_less, op_equal, Column, Stats, can_skip, build_from_column_vector, unregister_stats,
}
use test_db.Index.Sparse.Order.{integers}
use test_db.Index.Sparse.Stats.{can_skip-build}
use test_db.Query.Compare.{op_lt, compare_values, op_to_index_op}

abbrev int_value : ℕ → Value
int_value n = record (zero_value int64) { int = n }

abbrev null_row : Value
null_row = record (zero_value null) { valid = false }

-- 7, NULL and 12.
abbrev column : Column
column = (false, int_value 7) ∷ (true, null_row) ∷ (false, int_value 12) ∷ []

abbrev stats : Stats
stats = build_from_column_vector 1 2 column []

skips_low : can_skip 1 2 op_less (int_value 7) stats ≡ true
unfolding can_skip build_from_column_vector biased
skips_low = refl

keeps_inside : can_skip 1 2 op_equal (int_value 9) stats ≡ false
unfolding can_skip build_from_column_vector biased
keeps_inside = refl

keeps_unknown : can_skip 3 2 op_equal (int_value 9) stats ≡ false
unfolding can_skip build_from_column_vector biased
keeps_unknown = refl

gone_segment : unregister_stats 1 stats ≡ []
unfolding unregister_stats build_from_column_vector
gone_segment = refl

-- The patterns of NaN, 5.0 and 10.0.
abbrev nan_first : Column
nan_first =
    (false, record (zero_value int64) { typ = float64; float = 4095 * 2 ^ 51 })
    ∷ (false, record (zero_value int64) { typ = float64; float = 1025 * 2 ^ 52 + 2 ^ 50 })
    ∷ []

abbrev ten : Value
ten = record (zero_value int64) { typ = float64; float = 1026 * 2 ^ 52 + 2 ^ 50 }

-- A NaN at the front stays as both bounds: the segment is skipped although 5.0 < 10.0.
skips_behind_nan : can_skip 1 2 op_less ten (build_from_column_vector 1 2 nan_first []) ≡ true
unfolding can_skip build_from_column_vector is_nan rank float64_ltb
skips_behind_nan = refl

five_below_ten :
    compare_values op_lt
      (record (zero_value int64) { typ = float64; float = 1025 * 2 ^ 52 + 2 ^ 50 })
      ten
    ≡ true
unfolding compare_values is_nan rank float64_ltb
five_below_ten = refl

can_skip-build_example : compare_values op_lt (int_value 12) (int_value 7) ≡ false
unfolding can_skip build_from_column_vector biased is_int_family op_to_index_op
can_skip-build_example =
    can_skip-build integers op_lt op_less (int_value 7) 1 2 column [] 2 (int_value 12)
      (inr (refl, refl), (inl refl, (inr (refl, refl), tt))) (refl, refl) refl refl refl refl
