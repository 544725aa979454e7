-- ===== src/Prelude/Endian.antt =====
-- Little-endian words: encoding/binary's LittleEndian.PutUintN and UintN.
use Prim.Native.Nat.{ℕ, zero, suc, ◌+◌, ◌*◌, ◌/◌, ◌%◌, ◌^◌, ◌<◌}
use mathlib.Core.Path.{◌≡◌, refl}
use mathlib.Core.Bool.{false}
use mathlib.Core.List.{List, [], ◌∷◌, ◌++◌}
use native.Mathlib.Omega.{arith}
use native.Mathlib.Nat.{pow-suc}
use test_db.Prelude.Booleans.{ltb}
use test_db.Prelude.Lists.{length, length-append, drop}

abbrev pub Bytes : Type 0
Bytes = List ℕ

abbrev pub IsByte : ℕ → Type 0
IsByte b = b < 256

-- The `w` lowest bytes of a number, the lowest first.
unfoldable pub put_le : ℕ → ℕ → Bytes
put_le zero n = []
put_le (suc w) n = n % 256 ∷ put_le w (n / 256)

-- The number that the first `w` bytes stand for.
unfoldable pub get_le : ℕ → Bytes → ℕ
get_le zero bs = 0
get_le (suc w) [] = 0
get_le (suc w) (b ∷ bs) = b + 256 * get_le w bs

pub length-put_le : (w n : ℕ) → length (put_le w n) ≡ w
unfolding put_le
length-put_le zero n = refl
length-put_le (suc w) n = omega (arith, length-put_le w (n / 256))

pub get_le-put_le : (w n : ℕ) (rest : Bytes) → n < 256 ^ w → get_le w (put_le w n ++ rest) ≡ n
unfolding put_le get_le
get_le-put_le zero n rest h = omega arith
get_le-put_le (suc w) n rest h =
    let h' : n / 256 < 256 ^ w = omega (arith, pow-suc 256 w) in
    omega (arith, get_le-put_le w (n / 256) rest h')

-- A prefix is there to be read, and reading it leaves the rest.
pub prefix_fits {ℓ} : {A : Type ℓ} (xs ys : List A) → ltb (length (xs ++ ys)) (length xs) ≡ false
prefix_fits xs ys = ground (arith, length-append xs ys)

pub put_le_fits : (w n : ℕ) (ys : Bytes) → ltb (length (put_le w n ++ ys)) w ≡ false
put_le_fits w n ys = ground (arith, length-append (put_le w n) ys, length-put_le w n)

pub drop-put_le : (w n : ℕ) (ys : Bytes) → drop w (put_le w n ++ ys) ≡ ys
unfolding put_le
drop-put_le zero n ys = refl
drop-put_le (suc w) n ys = drop-put_le w (n / 256) ys
