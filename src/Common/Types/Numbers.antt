-- ===== src/Common/Types/Numbers.antt =====
-- The numbers of the data types.
use test_db.Prelude.{ℕ, ◌+◌, ◌≡◌, refl, arith}
use test_db.Common.Types.{DataType, null, unknown, number, of_number}

of_number-unknown : (n : ℕ) → of_number (n + 11) ≡ unknown n
unfolding of_number
of_number-unknown n = ground arith

pub of_number-number : (t : DataType) → of_number (number t) ≡ t
unfolding of_number number
of_number-number null = refl
of_number-number (unknown n) = of_number-unknown n
of_number-number _ = refl
