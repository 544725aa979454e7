-- ===== src/Storage/Wal/Codec.antt =====
-- pkg/storage/wal_codec.go and the write records of wal_record.go: rows as bytes of the log.
pub mod Values
pub mod RoundTrip
pub mod Nulls
pub mod Safety
pub mod Size
mod Runs
use test_db.Prelude.{
  ℕ, zero, suc, ◌+◌, ◌%◌, ◌^◌, ◌≡◌, Bool, true, false, not, Option, none, some, List, [], ◌∷◌, ◌++◌,
  Str, str_eq, length, take, drop, ltb, ◌==◌, if◌then◌else◌, Bytes, put_le, get_le,
}
use test_db.Common.Types.{
  DataType, null, bool, int64, float64, string, timestamp, date, int8, int16, int32, uint64,
  unknown, number, of_number, Value, zero_value, new_int_family_value,
}
use test_db.Storage.Row.{Columns, WriteRow}

pub data Error : Type 0 where
  record_too_short truncated_name_len truncated_name truncated_type_valid truncated_value : Error
  truncated_string_len truncated_string unknown_value_type empty_write_record : Error
  truncated_key_len truncated_key truncated_version truncated_col_count : ℕ → Error
  at_column : ℕ → Error → Error

pub data Result {ℓ} (A : Type ℓ) : Type ℓ where
  ok : A → Result A
  err : Error → Result A

infixl 5 ◌>>=◌
abbrev pub ◌>>=◌ {ℓ κ} : {A : Type ℓ} {B : Type κ} → Result A → (A → Result B) → Result B
ok a >>= f = f a
err e >>= f = err e

abbrev flag : Bool → ℕ
flag b = if b then 1 else 0

-- The `switch v.Typ` of appendValueBinary.
unfoldable pub payload : DataType → Value → Bytes
payload bool v = flag (not (v.int == 0)) ∷ []
payload int64 v = put_le 8 v.int
payload int8 v = put_le 8 v.int
payload int16 v = put_le 8 v.int
payload int32 v = put_le 8 v.int
payload uint64 v = put_le 8 v.int
payload date v = put_le 8 v.int
payload float64 v = put_le 8 v.float
payload string v = put_le 2 (length v.str) ++ v.str
payload timestamp v = put_le 8 v.time
payload null v = []
payload (unknown n) v = []

-- The `switch v.Typ` of valueBinarySize.
unfoldable pub binary_size : DataType → Value → ℕ
binary_size bool v = 1
binary_size string v = 2 + length v.str
binary_size null v = 0
binary_size (unknown n) v = 0
binary_size _ v = 8

-- The capacity that a batch asks for before it is written.
unfoldable pub columns_size : Columns → ℕ
unfolding binary_size
columns_size [] = 0
columns_size ((name, v) ∷ cols) = 2 + length name + 1 + 1 + binary_size v.typ v + columns_size cols

unfoldable pub rows_size : List WriteRow → ℕ
unfolding columns_size
rows_size [] = 0
rows_size (r ∷ rs) = 2 + length r.key + 8 + 2 + columns_size r.values + rows_size rs

unfoldable pub batch_size : List WriteRow → ℕ
unfolding rows_size
batch_size rows = 2 + rows_size rows

unfoldable pub value_bytes : Str → Value → Bytes
unfolding number payload
value_bytes name v =
    put_le 2 (length name) ++ (name ++ (number v.typ % 256 ∷ flag v.valid ∷ payload v.typ v))

-- appendValueBinary, for each entry of a map of columns.
unfoldable pub columns_bytes : Columns → Bytes
unfolding value_bytes
columns_bytes [] = []
columns_bytes ((name, v) ∷ cols) = value_bytes name v ++ columns_bytes cols

-- One row of a record.
unfoldable pub row_bytes : Str → ℕ → Columns → Bytes
unfolding columns_bytes
row_bytes key version cols =
    put_le 2 (length key)
    ++ (key ++ (put_le 8 version ++ (put_le 2 (length cols) ++ columns_bytes cols)))

-- The rows of a batch; `nextVersion++` on a uint64.
unfoldable pub rows_bytes : ℕ → List WriteRow → Bytes
unfolding row_bytes
rows_bytes version [] = []
rows_bytes version (r ∷ rs) =
    row_bytes r.key version r.values ++ rows_bytes ((version + 1) % 2 ^ 64) rs

unfoldable pub serialize_batch_write_record : List WriteRow → ℕ → Bytes
unfolding rows_bytes
serialize_batch_write_record rows version = put_le 2 (length rows) ++ rows_bytes version rows

unfoldable pub serialize_write_record : Str → ℕ → Columns → Bytes
unfolding row_bytes
serialize_write_record key version cols = put_le 2 1 ++ row_bytes key version cols

-- common.Value{Typ: t}
abbrev pub bare : DataType → Value
bare t = record (zero_value t) { valid = false }

-- The readers of fixedSizeTypes and readStringValue: the value and how many bytes it took.
read_fixed : ℕ → (Bytes → Value) → Bytes → Result (Value × ℕ)
read_fixed n read bs = if ltb (length bs) n then err truncated_value else ok (read bs, n)

abbrev read_bool : Bytes → Value
read_bool [] = bare bool
read_bool (b ∷ bs) = record (bare bool) { int = flag (not (b == 0)) }

read_string_value : Bytes → Result (Value × ℕ)
read_string_value bs =
    let n = get_le 2 bs in
    if ltb (length bs) 2
    then err truncated_string_len
    else if ltb (length bs) (2 + n)
    then err truncated_string
    else ok (record (bare string) { str = take n (drop 2 bs) }, 2 + n)

unfoldable pub read_typed_value : DataType → Bytes → Result (Value × ℕ)
unfolding read_fixed read_string_value new_int_family_value
read_typed_value bool bs = read_fixed 1 read_bool bs
read_typed_value int64 bs = read_fixed 8 (λ b. new_int_family_value int64 (get_le 8 b)) bs
read_typed_value int8 bs = read_fixed 8 (λ b. new_int_family_value int8 (get_le 8 b)) bs
read_typed_value int16 bs = read_fixed 8 (λ b. new_int_family_value int16 (get_le 8 b)) bs
read_typed_value int32 bs = read_fixed 8 (λ b. new_int_family_value int32 (get_le 8 b)) bs
read_typed_value uint64 bs = read_fixed 8 (λ b. new_int_family_value uint64 (get_le 8 b)) bs
read_typed_value date bs = read_fixed 8 (λ b. new_int_family_value date (get_le 8 b)) bs
read_typed_value float64 bs = read_fixed 8 (λ b. record (bare float64) { float = get_le 8 b }) bs
read_typed_value timestamp bs = read_fixed 8 (λ b. record (bare timestamp) { time = get_le 8 b }) bs
read_typed_value string bs = read_string_value bs
read_typed_value null bs = err unknown_value_type
read_typed_value (unknown n) bs = err unknown_value_type

-- What follows the column's name: type, validity and value.
unfoldable pub read_tagged : Str → ℕ → Bytes → Result (Str × Value × ℕ)
unfolding of_number
read_tagged name used [] = err truncated_type_valid
read_tagged name used (t ∷ []) = err truncated_type_valid
read_tagged name used (t ∷ f ∷ bs) = read_typed_value (of_number t) bs >>= λ p.
    ok (name, record (p.0) { valid = not (f == 0) }, used + 2 + p.1)

unfoldable pub read_value_binary : Bytes → Result (Str × Value × ℕ)
unfolding read_tagged
read_value_binary bs =
    let n = get_le 2 bs in
    let rest = drop 2 bs in
    if ltb (length bs) 2
    then err truncated_name_len
    else if ltb (length rest) n
    then err truncated_name
    else read_tagged (take n rest) (2 + n) (drop n rest)

-- values[colName] = val
unfoldable pub put_column : Str → Value → Columns → Columns
put_column name v [] = (name, v) ∷ []
put_column name v ((other, w) ∷ cols) =
    let rest = put_column name v cols in
    if str_eq other name then (other, v) ∷ cols else (other, w) ∷ rest

-- Columns j, j + 1, … of a row, `count` of them; the bytes that are left come back too.
unfoldable pub read_columns : ℕ → ℕ → Bytes → Columns → Result (Columns × Bytes)
unfolding read_value_binary put_column
read_columns zero j bs values = ok (values, bs)
read_columns (suc count) j bs values = elim (read_value_binary bs) [
  | err e ↦ err (at_column j e)
  | ok p ↦ read_columns count (j + 1) (drop p.2 bs) (put_column p.0 p.1 values)
]

pub record BatchWriteRow : Type 0 where
  pub key : Str
  pub version : ℕ
  pub values : Columns

-- Version, column count and columns of a row whose key has been read.
unfoldable pub read_row_body : ℕ → Str → Bytes → Result (BatchWriteRow × Bytes)
unfolding read_columns
read_row_body i key bs =
    let rest = drop 8 bs in
    if ltb (length bs) 8
    then err (truncated_version i)
    else if ltb (length rest) 2
    then err (truncated_col_count i)
    else (read_columns (get_le 2 rest) 0 (drop 2 rest) [] >>= λ p.
        ok (record { key = key; version = get_le 8 bs; values = p.0 }, p.1))

unfoldable pub read_row : ℕ → Bytes → Result (BatchWriteRow × Bytes)
unfolding read_row_body
read_row i bs =
    let n = get_le 2 bs in
    let rest = drop 2 bs in
    if ltb (length bs) 2
    then err (truncated_key_len i)
    else if ltb (length rest) n
    then err (truncated_key i)
    else read_row_body i (take n rest) (drop n rest)

unfoldable pub read_rows : ℕ → ℕ → Bytes → Result (List BatchWriteRow)
unfolding read_row
read_rows zero i bs = ok []
read_rows (suc count) i bs = elim (read_row i bs) [
  | err e ↦ err e
  | ok p ↦ read_rows count (i + 1) p.1 >>= λ rows. ok (p.0 ∷ rows)
]

unfoldable pub deserialize_batch_write_record : Bytes → Result (List BatchWriteRow)
unfolding read_rows
deserialize_batch_write_record bs =
    if ltb (length bs) 2 then err record_too_short else read_rows (get_le 2 bs) 0 (drop 2 bs)

abbrev first_row : List BatchWriteRow → Result BatchWriteRow
first_row [] = err empty_write_record
first_row (r ∷ rs) = ok r

unfoldable pub deserialize_write_record : Bytes → Result BatchWriteRow
unfolding deserialize_batch_write_record
deserialize_write_record bs = deserialize_batch_write_record bs >>= first_row
