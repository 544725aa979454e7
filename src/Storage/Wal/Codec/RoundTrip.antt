-- ===== src/Storage/Wal/Codec/RoundTrip.antt =====
-- The rows of a record: what their reader makes of what their writer wrote.
use mathlib.Core.List.{append_assoc, append-nil}
use test_db.Prelude.{
  ℕ, suc, ◌+◌, ◌%◌, ◌^◌, ◌<◌, ◌≡◌, refl, sym, ap, ◌∙◌, List, [], ◌∷◌, ◌++◌, arith, Str, length,
  drop, take-append, drop-append, Bytes, put_le, get_le-put_le, put_le_fits, drop-put_le,
  prefix_fits,
}
use test_db.Common.Types.{Value}
use test_db.Storage.Row.{Columns, WriteRow}
use test_db.Storage.Wal.Codec.{
  ok, ◌>>=◌, value_bytes, columns_bytes, row_bytes, rows_bytes, serialize_batch_write_record,
  read_value_binary, put_column, read_columns, BatchWriteRow, read_row_body, read_row, read_rows,
  deserialize_batch_write_record, serialize_write_record, deserialize_write_record, first_row,
}
use test_db.Storage.Wal.Codec.Values.{Fits, restored, value_round_trip}

abbrev pub AllFit : Columns → Type 0
AllFit [] = Unit
AllFit ((name, v) ∷ cols) = Fits name v × AllFit cols

-- The assignments to a map, one after the other.
unfoldable pub put_columns : Columns → Columns → Columns
put_columns values [] = values
put_columns values ((name, v) ∷ cols) = put_columns (put_column name (restored v) values) cols

columns_step :
    (count j : ℕ) (bs : Bytes) (values : Columns) (p : Str × Value × ℕ)
    → read_value_binary bs ≡ ok p
    → read_columns (suc count) j bs values
      ≡ read_columns count (j + 1) (drop p.2 bs) (put_column p.0 p.1 values)
unfolding read_columns
columns_step count j bs values p e = rw (e, read_columns) refl

columns_round_trip :
    (cols values : Columns) (j : ℕ) (rest : Bytes)
    → AllFit cols
    → read_columns (length cols) j (columns_bytes cols ++ rest) values
      ≡ ok (put_columns values cols, rest)
unfolding columns_bytes put_columns
columns_round_trip [] values j rest h = unfold read_columns in refl
columns_round_trip ((name, v) ∷ cols) values j rest h =
    let more = columns_bytes cols ++ rest in
    let next = put_column name (restored v) values in
    ap (λ bs. read_columns (suc (length cols)) j bs values)
      (append_assoc (value_bytes name v) (columns_bytes cols) rest)
    ∙ columns_step (length cols) j (value_bytes name v ++ more) values
        (name, restored v, length (value_bytes name v)) (value_round_trip name v more h.0)
    ∙ ap (λ bs. read_columns (length cols) (j + 1) bs next) (drop-append (value_bytes name v) more)
    ∙ columns_round_trip cols next (j + 1) rest h.1

body_step :
    (i : ℕ) (key : Str) (version count : ℕ) (rest : Bytes) (q : Columns × Bytes)
    → version < 2 ^ 64
    → count < 2 ^ 16
    → read_columns count 0 rest [] ≡ ok q
    → read_row_body i key (put_le 8 version ++ (put_le 2 count ++ rest))
      ≡ ok (record { key = key; version = version; values = q.0 }, q.1)
unfolding read_row_body
body_step i key version count rest q hv hc e =
    let tail = put_le 2 count ++ rest in
    rw (put_le_fits 8 version tail, drop-put_le 8 version tail, get_le-put_le 8 version tail hv)
      (rw (put_le_fits 2 count rest, drop-put_le 2 count rest, get_le-put_le 2 count rest hc)
        (rw (e)))

pub key_step :
    (i : ℕ) (key rest : Bytes)
    → length key < 2 ^ 16
    → read_row i (put_le 2 (length key) ++ (key ++ rest)) ≡ read_row_body i key rest
unfolding read_row
key_step i key rest h =
    let n = length key in
    rw
      (
        put_le_fits 2 n (key ++ rest),
        drop-put_le 2 n (key ++ rest),
        get_le-put_le 2 n (key ++ rest) h,
      )
      (rw (prefix_fits key rest, take-append key rest, drop-append key rest))

abbrev pub RowFits : WriteRow → Type 0
RowFits r = (length r.key < 2 ^ 16) × (length r.values < 2 ^ 16) × AllFit r.values

-- A row as the log gives it back.
abbrev pub restored_row : ℕ → WriteRow → BatchWriteRow
restored_row version r = record { key = r.key; version = version; values = put_columns [] r.values }

pub row_regroup :
    (key : Str) (version : ℕ) (cols : Columns) (rest : Bytes)
    → row_bytes key version cols ++ rest
      ≡ put_le 2 (length key)
        ++ (key ++ (put_le 8 version ++ (put_le 2 (length cols) ++ (columns_bytes cols ++ rest))))
unfolding row_bytes
row_regroup key version cols rest =
    let a = put_le 2 (length key) in
    let b = put_le 8 version in
    let c = put_le 2 (length cols) in
    let d = columns_bytes cols in
    append_assoc a (key ++ (b ++ (c ++ d))) rest
    ∙ ap (λ l. a ++ l) (append_assoc key (b ++ (c ++ d)) rest)
    ∙ ap (λ l. a ++ (key ++ l)) (append_assoc b (c ++ d) rest)
    ∙ ap (λ l. a ++ (key ++ (b ++ l))) (append_assoc c d rest)

row_round_trip :
    (i version : ℕ) (r : WriteRow) (rest : Bytes)
    → version < 2 ^ 64
    → RowFits r
    → read_row i (row_bytes r.key version r.values ++ rest) ≡ ok (restored_row version r, rest)
row_round_trip i version r rest hv h =
    let cols = r.values in
    let tail = columns_bytes cols ++ rest in
    ap (read_row i) (row_regroup r.key version cols rest)
    ∙ key_step i r.key (put_le 8 version ++ (put_le 2 (length cols) ++ tail)) h.0
    ∙ body_step i r.key version (length cols) tail (put_columns [] cols, rest) hv h.1
        (columns_round_trip cols [] 0 rest h.2)

abbrev pub RowsFit : List WriteRow → Type 0
RowsFit [] = Unit
RowsFit (r ∷ rs) = RowFits r × RowsFit rs

-- The rows as the log gives them back, numbered from `version` on.
unfoldable pub restored_rows : ℕ → List WriteRow → List BatchWriteRow
restored_rows version [] = []
restored_rows version (r ∷ rs) = restored_row version r ∷ restored_rows ((version + 1) % 2 ^ 64) rs

rows_step :
    (count i : ℕ) (bs rest : Bytes) (r : BatchWriteRow) (rows : List BatchWriteRow)
    → read_row i bs ≡ ok (r, rest)
    → read_rows count (i + 1) rest ≡ ok rows
    → read_rows (suc count) i bs ≡ ok (r ∷ rows)
unfolding read_rows
rows_step count i bs rest r rows e f = rw (e, f, read_rows) refl

rows_round_trip :
    (i version : ℕ) (rows : List WriteRow)
    → version < 2 ^ 64
    → RowsFit rows
    → read_rows (length rows) i (rows_bytes version rows) ≡ ok (restored_rows version rows)
unfolding rows_bytes restored_rows
rows_round_trip i version [] hv h = unfold read_rows in refl
rows_round_trip i version (r ∷ rs) hv h =
    let next = (version + 1) % 2 ^ 64 in
    rows_step (length rs) i (row_bytes r.key version r.values ++ rows_bytes next rs)
      (rows_bytes next rs) (restored_row version r) (restored_rows next rs)
      (row_round_trip i version r (rows_bytes next rs) hv h.0)
      (rows_round_trip (i + 1) next rs (omega arith) h.1)

-- A batch of at most 65535 rows, each with a key of fewer than 65536 bytes and fewer than 65536
-- columns, whose names and strings are shorter than 65536 bytes, whose other values are 64-bit
-- patterns and whose types the log can hold, is read back from its record: every row with its key,
-- the version that it was written under (counted up from that of the batch, on 64 bits) and its
-- columns, of each value the field that its type uses.
pub deserialize_batch-serialize_batch :
    (rows : List WriteRow) (version : ℕ)
    → length rows < 2 ^ 16
    → version < 2 ^ 64
    → RowsFit rows
    → deserialize_batch_write_record (serialize_batch_write_record rows version)
      ≡ ok (restored_rows version rows)
unfolding deserialize_batch_write_record serialize_batch_write_record
deserialize_batch-serialize_batch rows version hn hv h =
    let n = length rows in
    let body = rows_bytes version rows in
    rw (put_le_fits 2 n body, drop-put_le 2 n body, get_le-put_le 2 n body hn)
      (rows_round_trip 0 version rows hv h)

single_record :
    (key : Str) (version : ℕ) (cols : Columns)
    → serialize_write_record key version cols
      ≡ serialize_batch_write_record (record { key = key; values = cols } ∷ []) version
unfolding serialize_write_record serialize_batch_write_record rows_bytes
single_record key version cols =
    ap (λ l. put_le 2 1 ++ l) (sym (append-nil (row_bytes key version cols)))

-- A single row that meets the same bounds is read back from its record by the reader of single
-- records: its key, its version and its columns, of each value the field that its type uses.
pub deserialize_write-serialize_write :
    (key : Str) (version : ℕ) (cols : Columns)
    → length key < 2 ^ 16
    → version < 2 ^ 64
    → length cols < 2 ^ 16
    → AllFit cols
    → deserialize_write_record (serialize_write_record key version cols)
      ≡ ok (record { key = key; version = version; values = put_columns [] cols })
unfolding deserialize_write_record
deserialize_write-serialize_write key version cols hk hv hc h =
    let r : WriteRow = record { key = key; values = cols } in
    ap (λ bs. deserialize_batch_write_record bs >>= first_row) (single_record key version cols)
    ∙ ap (λ x. x >>= first_row)
        (deserialize_batch-serialize_batch (r ∷ []) version (omega arith) hv ((hk, hc, h), tt))
    ∙ unfold restored_rows in refl
