-- ===== src/Storage/RunLength/RoundTrip.antt =====
-- decodeRLE after encodeRLE.
use test_db.Prelude.{
  ℕ, zero, suc, ◌+◌, ◌-◌, ◌*◌, ◌/◌, ◌^◌, ◌<◌, ◌≡◌, refl, ap, ◌∙◌, Bool, true, false, Option, none,
  some, List, [], ◌∷◌, ◌++◌, length, length-append, All, drop, ◌==◌, if◌then◌else◌, Bytes, put_le,
  get_le, get_le-put_le, drop-put_le, length-put_le, arith,
}
use test_db.Storage.Dictionary.{EncodedColumn}
use test_db.Common.Types.{DataType, is_int_family}
use test_db.Storage.RunLength.{
  IntCell, RleRun, collect_runs, run_bytes, runs_bytes, encode_rle, repeat_row, decode_runs,
  decode_rle,
}
use test_db.Storage.RunLength.Rows.{
  copies, rows_of, zero_nulls, IsWord, FitsRun, length-copies, rows_of-collect_runs,
  collect_runs-FitsRun,
}

repeat_row-copies : (c n m : ℕ) (cell : IntCell) → m ≡ c + n → repeat_row c m cell ≡ copies c cell
unfolding repeat_row copies
repeat_row-copies zero n m cell h = refl
repeat_row-copies (suc c) n zero cell h = absurd (omega (arith, h))
repeat_row-copies (suc c) n (suc m) cell h =
    ap (λ l. cell ∷ l) (repeat_row-copies c n m cell (omega (arith, h)))

repeat_row-none : (c : ℕ) (cell : IntCell) → repeat_row c 0 cell ≡ []
unfolding repeat_row
repeat_row-none zero cell = refl
repeat_row-none (suc c) cell = refl

decode_runs-none : (k : ℕ) (bs : Bytes) → decode_runs k bs 0 ≡ []
unfolding decode_runs repeat_row
decode_runs-none zero bs = refl
decode_runs-none (suc k) bs = refl

length-runs_bytes : (rs : List RleRun) → length (runs_bytes rs) ≡ length rs * 16
unfolding runs_bytes run_bytes
length-runs_bytes [] = refl
length-runs_bytes (r ∷ rs) =
    let tail : Bytes = (if r.is_null then 1 else 0) ∷ 0 ∷ 0 ∷ 0 ∷ runs_bytes rs in
    omega (
      arith,
      length-append (put_le 8 r.value) (put_le 4 r.count ++ tail),
      length-put_le 8 r.value,
      length-append (put_le 4 r.count) tail,
      length-put_le 4 r.count,
      length-runs_bytes rs,
    )

-- One round of the loop, also where no row is left.
decode_runs-round :
    (k : ℕ) (bs : Bytes) (n : ℕ)
    → decode_runs (suc k) bs n
      ≡ repeat_row (get_le 4 (drop 8 bs)) n (get_le 1 (drop 4 (drop 8 bs)) == 1, get_le 8 bs)
        ++ decode_runs k (drop 4 (drop 4 (drop 8 bs))) (n - get_le 4 (drop 8 bs))
unfolding decode_runs
decode_runs-round k bs zero =
    let count = get_le 4 (drop 8 bs) in
    let cell : IntCell = (get_le 1 (drop 4 (drop 8 bs)) == 1, get_le 8 bs) in
    let nothing : 0 - count ≡ 0 = omega arith in
    rw (nothing, repeat_row-none count cell, decode_runs-none k (drop 4 (drop 4 (drop 8 bs)))) refl
decode_runs-round k bs (suc n) = refl

flag_read : (b : Bool) (rest : Bytes) → (get_le 1 ((if b then 1 else 0) ∷ rest) == 1) ≡ b
unfolding get_le
flag_read true rest = refl
flag_read false rest = refl

decode_runs-run :
    (r : RleRun) (k : ℕ) (rest : Bytes) (n : ℕ)
    → FitsRun r
    → decode_runs (suc k) (run_bytes r rest) n
      ≡ repeat_row r.count n (r.is_null, r.value) ++ decode_runs k rest (n - r.count)
unfolding run_bytes
decode_runs-run r k rest n fit =
    let tail : Bytes = (if r.is_null then 1 else 0) ∷ 0 ∷ 0 ∷ 0 ∷ rest in
    let bs = run_bytes r rest in
    let value = get_le-put_le 8 r.value (put_le 4 r.count ++ tail) fit.0 in
    let after = drop-put_le 8 r.value (put_le 4 r.count ++ tail) in
    let count = get_le-put_le 4 r.count tail fit.1 in
    let flags = drop-put_le 4 r.count tail in
    rw
      (decode_runs-round k bs n, value, after, count, flags, flag_read r.is_null (0 ∷ 0 ∷ 0 ∷ rest))
      refl

decode_runs-bytes :
    (rs : List RleRun)
    → All FitsRun rs
    → decode_runs (length rs) (runs_bytes rs) (length (rows_of rs)) ≡ rows_of rs
unfolding runs_bytes rows_of
decode_runs-bytes [] fit = decode_runs-none 0 []
decode_runs-bytes (r ∷ rs) fit =
    let cell : IntCell = (r.is_null, r.value) in
    let n = length (copies r.count cell ++ rows_of rs) in
    let size : n ≡ r.count + length (rows_of rs) =
      omega (arith, length-append (copies r.count cell) (rows_of rs), length-copies r.count cell) in
    let left : n - r.count ≡ length (rows_of rs) = omega (arith, size) in
    decode_runs-run r (length rs) (runs_bytes rs) n fit.0
    ∙ ap (λ l. l ++ decode_runs (length rs) (runs_bytes rs) (n - r.count))
        (repeat_row-copies r.count (length (rows_of rs)) n cell size)
    ∙ ap (λ m. copies r.count cell ++ decode_runs (length rs) (runs_bytes rs) m) left
    ∙ ap (λ l. copies r.count cell ++ l) (decode_runs-bytes rs fit.1)

abbrev pub decoded : Option EncodedColumn → Option (List IntCell)
decoded none = none
decoded (some enc) = some (decode_rle enc)

length-zero_nulls : (cells : List IntCell) → length (zero_nulls cells) ≡ length cells
unfolding zero_nulls
length-zero_nulls [] = refl
length-zero_nulls ((null, v) ∷ cells) = omega (arith, length-zero_nulls cells)

-- A column of 64-bit integers of an integer type, of fewer than 2 ^ 32 rows, is encoded, and
-- decoding gives its rows back, with 0 as the value of each null.
pub decode_rle-encode_rle :
    (typ : DataType) (cells : List IntCell)
    → is_int_family typ ≡ true
    → length cells < 2 ^ 32
    → All IsWord cells
    → decoded (encode_rle typ cells) ≡ some (zero_nulls cells)
unfolding encode_rle decode_rle rows_of
decode_rle-encode_rle typ cells int room words =
    let rs = collect_runs cells [] in
    let rows : rows_of rs ≡ zero_nulls cells =
      rows_of-collect_runs cells [] (omega (arith, room)) in
    let runs : length (runs_bytes rs) / 16 ≡ length rs = omega (arith, length-runs_bytes rs) in
    let size : length cells ≡ length (rows_of rs) =
      omega (arith, ap (λ l. length l) rows, length-zero_nulls cells) in
    rw (int, runs, size)
      (ap (λ l. some l) (decode_runs-bytes rs (collect_runs-FitsRun cells [] words tt) ∙ rows))
