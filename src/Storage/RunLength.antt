-- ===== src/Storage/RunLength.antt =====
-- The run-length encoding of pkg/storage/encoding.go: integer columns as runs of equal rows.
pub mod Rows
pub mod RoundTrip
mod Runs
use test_db.Prelude.{
  ℕ, zero, suc, ◌+◌, ◌-◌, ◌/◌, ◌%◌, ◌^◌, Bool, true, false, not, ◌||◌, Option, none, some, List, [],
  ◌∷◌, ◌++◌, length, drop, ◌==◌, if◌then◌else◌, Bytes, put_le, get_le,
}
use test_db.Common.Types.{DataType, is_int_family}
use test_db.Storage.Dictionary.{EncodedColumn}

-- A row of the column: nulls.Get(i) and the 64 bits of ints[i].
abbrev pub IntCell : Type 0
IntCell = Bool × ℕ

pub record RleRun : Type 0 where
  pub value : ℕ
  pub count : ℕ
  pub is_null : Bool

abbrev pub same_flag : Bool → Bool → Bool
same_flag true b = b
same_flag false b = not b

abbrev pub new_run : Bool → ℕ → RleRun
new_run null v = record { value = v; count = 1; is_null = null }

-- The row joins the last run or starts a new one.
unfoldable pub push_row : Bool → ℕ → List RleRun → List RleRun
push_row null v [] = new_run null v ∷ []
push_row null v (r ∷ []) =
    if not (r.value == v) || not (same_flag r.is_null null)
    then r ∷ new_run null v ∷ []
    else record r { count = (r.count + 1) % 2 ^ 32 } ∷ []
push_row null v (r ∷ r' ∷ rs) = r ∷ push_row null v (r' ∷ rs)

unfoldable pub collect_runs : List IntCell → List RleRun → List RleRun
collect_runs [] runs = runs
collect_runs ((null, v) ∷ cells) runs =
    collect_runs cells (push_row null (if null then 0 else v) runs)

unfoldable pub run_bytes : RleRun → Bytes → Bytes
run_bytes r rest =
    put_le 8 r.value ++ (put_le 4 r.count ++ (if r.is_null then 1 else 0) ∷ 0 ∷ 0 ∷ 0 ∷ rest)

unfoldable pub runs_bytes : List RleRun → Bytes
runs_bytes [] = []
runs_bytes (r ∷ rs) = run_bytes r (runs_bytes rs)

-- `none` is the error for another type.
unfoldable pub encode_rle : DataType → List IntCell → Option EncodedColumn
encode_rle typ cells =
    if is_int_family typ
    then some
        (record { row_count = length cells; bytes = runs_bytes (collect_runs cells []); dict = [] })
    else none

-- The inner loop: `count` rows, but no more than are `left`.
unfoldable pub repeat_row : ℕ → ℕ → IntCell → List IntCell
repeat_row zero left cell = []
repeat_row (suc c) zero cell = []
repeat_row (suc c) (suc left) cell = cell ∷ repeat_row c left cell

-- The outer loop over the runs that are still to be read; rows without a run stay zero.
unfoldable pub decode_runs : ℕ → Bytes → ℕ → List IntCell
decode_runs zero bs left = repeat_row left left (false, 0)
decode_runs (suc r) bs zero = []
decode_runs (suc r) bs (suc n) =
    let val = get_le 8 bs in
    let count = get_le 4 (drop 8 bs) in
    let null = get_le 1 (drop 4 (drop 8 bs)) == 1 in
    repeat_row count (suc n) (null, val)
    ++ decode_runs r (drop 4 (drop 4 (drop 8 bs))) (suc n - count)

unfoldable pub decode_rle : EncodedColumn → List IntCell
decode_rle enc = decode_runs (length enc.bytes / 16) enc.bytes enc.row_count
