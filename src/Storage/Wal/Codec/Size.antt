-- ===== src/Storage/Wal/Codec/Size.antt =====
-- The size of a record, which its writer computes before it writes.
use test_db.Prelude.{
  ℕ, ◌+◌, ◌%◌, ◌^◌, ◌≡◌, refl, List, [], ◌∷◌, ◌++◌, arith, Str, length, length-append, put_le,
  length-put_le,
}
use test_db.Common.Types.{DataType, null, bool, float64, string, timestamp, unknown, Value}
use test_db.Storage.Row.{Columns, WriteRow}
use test_db.Storage.Wal.Codec.{
  payload, value_bytes, columns_bytes, row_bytes, rows_bytes, serialize_batch_write_record,
  binary_size, columns_size, rows_size, batch_size,
}
use test_db.Storage.Wal.Codec.Values.{length-value_bytes}

length-payload : (t : DataType) (v : Value) → length (payload t v) ≡ binary_size t v
unfolding payload binary_size
length-payload bool v = refl
length-payload string v =
    omega (arith, length-append {0} (put_le 2 (length v.str)) v.str, length-put_le 2 (length v.str))
length-payload null v = refl
length-payload (unknown n) v = refl
length-payload float64 v = length-put_le 8 v.float
length-payload timestamp v = length-put_le 8 v.time
length-payload _ v = length-put_le 8 v.int

length-columns_bytes : (cols : Columns) → length (columns_bytes cols) ≡ columns_size cols
unfolding columns_bytes columns_size
length-columns_bytes [] = refl
length-columns_bytes ((name, v) ∷ cols) = omega (
  arith,
  length-append {0} (value_bytes name v) (columns_bytes cols),
  length-value_bytes name v,
  length-payload v.typ v,
  length-columns_bytes cols,
)

length-row_bytes :
    (key : Str) (version : ℕ) (cols : Columns)
    → length (row_bytes key version cols) ≡ 2 + length key + 8 + 2 + columns_size cols
unfolding row_bytes
length-row_bytes key version cols =
    let c = put_le 2 (length cols) ++ columns_bytes cols in
    let b = put_le 8 version ++ c in
    omega (
      arith,
      length-append {0} (put_le 2 (length key)) (key ++ b),
      length-append {0} key b,
      length-append {0} (put_le 8 version) c,
      length-append {0} (put_le 2 (length cols)) (columns_bytes cols),
      length-put_le 2 (length key),
      length-put_le 8 version,
      length-put_le 2 (length cols),
      length-columns_bytes cols,
    )

length-rows_bytes :
    (version : ℕ) (rows : List WriteRow) → length (rows_bytes version rows) ≡ rows_size rows
unfolding rows_bytes rows_size
length-rows_bytes version [] = refl
length-rows_bytes version (r ∷ rs) =
    let next = (version + 1) % 2 ^ 64 in
    omega (
      arith,
      length-append {0} (row_bytes r.key version r.values) (rows_bytes next rs),
      length-row_bytes r.key version r.values,
      length-rows_bytes next rs,
    )

-- The record of a batch is exactly as long as its writer computes beforehand, so the buffer that it
-- reserves never grows, whatever the rows are.
pub length-serialize_batch :
    (rows : List WriteRow) (version : ℕ)
    → length (serialize_batch_write_record rows version) ≡ batch_size rows
unfolding serialize_batch_write_record batch_size
length-serialize_batch rows version = omega (
  arith,
  length-append {0} (put_le 2 (length rows)) (rows_bytes version rows),
  length-put_le 2 (length rows),
  length-rows_bytes version rows,
)
