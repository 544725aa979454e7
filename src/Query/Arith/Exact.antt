-- ===== src/Query/Arith/Exact.antt =====
-- When the sum or the difference of two int64 is an int64.
use test_db.Prelude.{ℕ, ◌+◌, ◌-◌, ◌^◌, ◌<◌, ◌≡◌, arith, ◌&&◌, ltb, leb, if◌then◌else◌}
use test_db.Common.Float.{biased}
use test_db.Common.Types.{new_int64}
use test_db.Query.Arith.{
  Error, Result, ok, err, overflow_in_addition, overflow_in_subtraction, eval_int_add, eval_int_sub,
}

-- The result for the integer `t - 2 ^ 64`: its pattern, or the error where no int64 is that number.
unfoldable pub exact : Error → ℕ → Result
unfolding biased new_int64
exact e t =
    if leb (2 ^ 63) t && ltb t (2 ^ 63 + 2 ^ 64)
    then ok (new_int64 (biased (t - 2 ^ 63)))
    else err e

pub eval_int_add-exact :
    (a b : ℕ)
    → a < 2 ^ 64
    → b < 2 ^ 64
    → eval_int_add a b ≡ exact overflow_in_addition (biased a + biased b)
unfolding eval_int_add exact
eval_int_add-exact a b ha hb = ground arith

pub eval_int_sub-exact :
    (a b : ℕ)
    → a < 2 ^ 64
    → b < 2 ^ 64
    → eval_int_sub a b ≡ exact overflow_in_subtraction (biased a + 2 ^ 64 - biased b)
unfolding eval_int_sub exact
eval_int_sub-exact a b ha hb = ground arith
