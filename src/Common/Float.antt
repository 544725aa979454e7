-- ===== src/Common/Float.antt =====
-- Go's float64 as its 64-bit IEEE 754 pattern, and Go's int64 as its two's complement pattern:
-- comparison of each, and the conversion float64(i) that rounds to the nearest even.
use Prim.Native.Nat.{ℕ, zero, suc, ◌+◌, ◌-◌, ◌*◌, ◌/◌, ◌%◌, ◌^◌}
use test_db.Prelude.{Bool, not, ◌&&◌, ◌||◌, ltb, leb, ◌==◌, if◌then◌else◌}

-- The order of int64 is that of the patterns with the sign bit flipped.
unfoldable pub biased : ℕ → ℕ
biased x = (x + 2 ^ 63) % 2 ^ 64

abbrev pub int64_ltb : ℕ → ℕ → Bool
int64_ltb a b = ltb (biased a) (biased b)

abbrev pub is_negative : ℕ → Bool
is_negative x = leb (2 ^ 63) x

-- The pattern without its sign bit.
abbrev pub magnitude : ℕ → ℕ
magnitude x = x % 2 ^ 63

unfoldable pub is_nan : ℕ → Bool
is_nan x = ltb (2047 * 2 ^ 52) (magnitude x)

-- A number that orders the patterns other than NaN as IEEE 754 does; the two zeros are one.
unfoldable pub rank : ℕ → ℕ
rank x = if is_negative x then 2 ^ 63 - magnitude x else 2 ^ 63 + magnitude x

unfoldable pub float64_eq : ℕ → ℕ → Bool
float64_eq a b = not (is_nan a) && (not (is_nan b) && rank a == rank b)

unfoldable pub float64_ltb : ℕ → ℕ → Bool
float64_ltb a b = not (is_nan a) && (not (is_nan b) && ltb (rank a) (rank b))

-- The number of binary digits of `m` beyond the first; `fuel` bounds it.
log2 : ℕ → ℕ → ℕ
log2 zero m = 0
log2 (suc fuel) m = let rest = log2 fuel (m / 2) in if ltb m 2 then 0 else rest + 1

-- `m / 2 ^ s`, rounded to the nearest, and to the even one of two.
round_even : ℕ → ℕ → ℕ
round_even m s =
    let q = m / 2 ^ s in
    let r = m % 2 ^ s * 2 in if ltb (2 ^ s) r || (r == 2 ^ s && q % 2 == 1) then q + 1 else q

-- The pattern of a positive integer; a carry out of the significand moves to the exponent.
of_magnitude : ℕ → ℕ
of_magnitude m =
    if m == 0
    then 0
    else let e = log2 64 m in
      let significand = if leb e 52 then m * 2 ^ (52 - e) else round_even m (e - 52) in
      (e + 1022) * 2 ^ 52 + significand

-- float64(i)
unfoldable pub float64_of_int64 : ℕ → ℕ
unfolding of_magnitude round_even log2
float64_of_int64 i = if is_negative i then 2 ^ 63 + of_magnitude (2 ^ 64 - i) else of_magnitude i
