-- ===== src/Storage/Wal/Codec/Nulls.antt =====
-- NULL columns in the records of the log.
use mathlib.Core.List.{append_assoc}
use test_db.Prelude.{
  ℕ, suc, ◌+◌, ◌%◌, ◌^◌, ◌<◌, ◌≡◌, refl, ap, ◌∙◌, List, [], ◌∷◌, ◌++◌, arith, Str, length, Bytes,
  put_le, get_le-put_le, put_le_fits, drop-put_le,
}
use test_db.Common.Types.{null, number, of_number, Value}
use test_db.Storage.Row.{Columns, WriteRow}
use test_db.Storage.Wal.Codec.{
  Error, unknown_value_type, at_column, err, flag, payload, value_bytes, columns_bytes, row_bytes,
  rows_bytes, serialize_batch_write_record, read_typed_value, read_tagged, read_value_binary,
  read_columns, read_row_body, read_row, read_rows, deserialize_batch_write_record,
}
use test_db.Storage.Wal.Codec.Values.{name_step}
use test_db.Storage.Wal.Codec.RoundTrip.{key_step, row_regroup}

null_tag :
    (name : Str) (used f : ℕ) (rest : Bytes)
    → read_tagged name used (number null % 256 ∷ f ∷ rest) ≡ err unknown_value_type
unfolding read_tagged read_typed_value number of_number
null_tag name used f rest = refl

null_column :
    (name : Str) (v : Value) (rest : Bytes)
    → length name < 2 ^ 16
    → v.typ ≡ null
    → read_value_binary (value_bytes name v ++ rest) ≡ err unknown_value_type
null_column name v rest h e =
    let tail = number v.typ % 256 ∷ flag v.valid ∷ payload v.typ v in
    let regroup : value_bytes name v ++ rest ≡ put_le 2 (length name) ++ (name ++ (tail ++ rest)) =
      unfold value_bytes in
      append_assoc (put_le 2 (length name)) (name ++ tail) rest
      ∙ ap (λ l. put_le 2 (length name) ++ l) (append_assoc name tail rest) in
    ap read_value_binary regroup
    ∙ name_step name (tail ++ rest) h
    ∙ ap
        (λ t.
          read_tagged name (2 + length name)
            ((number t % 256 ∷ flag v.valid ∷ payload t v) ++ rest))
        e
    ∙ null_tag name (2 + length name) (flag v.valid) (payload null v ++ rest)

columns_stop :
    (count j : ℕ) (bs : Bytes) (values : Columns) (e : Error)
    → read_value_binary bs ≡ err e
    → read_columns (suc count) j bs values ≡ err (at_column j e)
unfolding read_columns
columns_stop count j bs values e h = rw (h, read_columns) refl

rows_stop :
    (count i : ℕ) (bs : Bytes) (e : Error)
    → read_row i bs ≡ err e
    → read_rows (suc count) i bs ≡ err e
unfolding read_rows
rows_stop count i bs e h = rw (h, read_rows) refl

body_stop :
    (i : ℕ) (key : Str) (version count : ℕ) (rest : Bytes) (e : Error)
    → count < 2 ^ 16
    → read_columns count 0 rest [] ≡ err e
    → read_row_body i key (put_le 8 version ++ (put_le 2 count ++ rest)) ≡ err e
unfolding read_row_body
body_stop i key version count rest e hc h =
    let tail = put_le 2 count ++ rest in
    rw (put_le_fits 8 version tail, drop-put_le 8 version tail)
      (rw (put_le_fits 2 count rest, drop-put_le 2 count rest, get_le-put_le 2 count rest hc)
        (rw (h)))

row_stop :
    (i : ℕ) (key : Str) (version : ℕ) (cols : Columns) (rest : Bytes) (e : Error)
    → length key < 2 ^ 16
    → length cols < 2 ^ 16
    → read_columns (length cols) 0 (columns_bytes cols ++ rest) [] ≡ err e
    → read_row i (row_bytes key version cols ++ rest) ≡ err e
row_stop i key version cols rest e hk hc h =
    let tail = columns_bytes cols ++ rest in
    ap (read_row i) (row_regroup key version cols rest)
    ∙ key_step i key (put_le 8 version ++ (put_le 2 (length cols) ++ tail)) hk
    ∙ body_stop i key version (length cols) tail e hc h

-- When the first column of the first row of a batch is a NULL (a value of type TypeNull), and the number
-- of rows, the number of that row's columns and the lengths of its key and of that column's name are
-- below 2 ^ 16, the record is written but cannot be read back: the reader refuses the whole batch with `unknown value type`.
pub deserialize_batch-null :
    (key name : Str) (v : Value) (cols : Columns) (rows : List WriteRow) (version : ℕ)
    → length rows + 1 < 2 ^ 16
    → length key < 2 ^ 16
    → length cols + 1 < 2 ^ 16
    → length name < 2 ^ 16
    → v.typ ≡ null
    → deserialize_batch_write_record (
        serialize_batch_write_record
          (record { key = key; values = (name, v) ∷ cols } ∷ rows)
          version)
      ≡ err (at_column 0 unknown_value_type)
unfolding deserialize_batch_write_record serialize_batch_write_record rows_bytes columns_bytes
deserialize_batch-null key name v cols rows version hn hk hc hname e =
    let all = (name, v) ∷ cols in
    let n = suc (length rows) in
    let next = rows_bytes ((version + 1) % 2 ^ 64) rows in
    let body = row_bytes key version all ++ next in
    let stuck : read_row 0 body ≡ err (at_column 0 unknown_value_type) =
      row_stop 0 key version all next (at_column 0 unknown_value_type) hk (omega (arith, hc)) (
        ap (λ bs. read_columns (suc (length cols)) 0 bs [])
          (append_assoc (value_bytes name v) (columns_bytes cols) next)
        ∙ columns_stop (length cols) 0 (value_bytes name v ++ (columns_bytes cols ++ next)) []
            unknown_value_type (null_column name v (columns_bytes cols ++ next) hname e)) in
    rw (put_le_fits 2 n body, drop-put_le 2 n body, get_le-put_le 2 n body (omega (arith, hn)))
      (rows_stop (length rows) 0 body _ stuck)
