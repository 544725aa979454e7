-- ===== src/Storage/Wal/Codec/Runs.antt =====
-- The records of the log (pkg/storage/wal_codec.go) at concrete inputs.
use test_db.Prelude.{◌≡◌, refl, List, [], ◌∷◌, arith, Str, put_le, get_le}
use test_db.Common.Types.{null, int64, string, Value, zero_value}
use test_db.Storage.Row.{WriteRow, Columns}
use test_db.Storage.Wal.Codec.{
  ok, err, at_column, unknown_value_type, truncated_key_len, record_too_short,
  serialize_batch_write_record, serialize_write_record, deserialize_batch_write_record,
  deserialize_write_record, read_rows, read_value_binary, empty_write_record,
}
use test_db.Storage.Wal.Codec.RoundTrip.{deserialize_batch-serialize_batch, restored_rows}
use test_db.Storage.Wal.Codec.Nulls.{deserialize_batch-null}
use test_db.Storage.Wal.Codec.Safety.{read_value_binary-ReadsWithin, ReadsWithin}

abbrev id_column : Str
id_column = b'i' ∷ b'd' ∷ []

abbrev seven : Value
seven = record (zero_value int64) { int = 7 }

abbrev hello : Value
hello = record (zero_value string) { str = b'h' ∷ b'i' ∷ [] }

abbrev null_value : Value
null_value = zero_value null

abbrev columns : Columns
columns = (id_column, seven) ∷ (b'n' ∷ [], hello) ∷ []

abbrev batch : List WriteRow
batch = record { key = b'a' ∷ []; values = columns } ∷ record { key = b'b' ∷ []; values = [] } ∷ []

short_record : deserialize_batch_write_record (1 ∷ []) ≡ err record_too_short
unfolding deserialize_batch_write_record
short_record = refl

missing_row : deserialize_batch_write_record (1 ∷ 0 ∷ []) ≡ err (truncated_key_len 0)
unfolding deserialize_batch_write_record read_rows get_le
missing_row = refl

no_rows : deserialize_write_record (0 ∷ 0 ∷ []) ≡ err empty_write_record
unfolding deserialize_write_record deserialize_batch_write_record read_rows get_le
no_rows = refl

written_bytes :
    serialize_write_record (b'a' ∷ []) 5 ((b'n' ∷ [], hello) ∷ [])
    ≡ 1 ∷ 0 ∷ 1 ∷ 0 ∷ b'a' ∷ 5 ∷ 0 ∷ 0 ∷ 0 ∷ 0 ∷ 0 ∷ 0 ∷ 0 ∷ 1 ∷ 0 ∷ 1 ∷ 0 ∷ b'n' ∷ 4 ∷ 1 ∷ 2 ∷ 0
      ∷ b'h' ∷ b'i' ∷ []
unfolding serialize_write_record put_le
written_bytes = refl

deserialize_batch-serialize_batch_example :
    deserialize_batch_write_record (serialize_batch_write_record batch 3)
    ≡ ok (restored_rows 3 batch)
deserialize_batch-serialize_batch_example =
    deserialize_batch-serialize_batch batch 3 (omega arith) (omega arith) (
      (omega arith, omega arith, ((omega arith, omega arith), ((omega arith, omega arith), tt))),
      ((omega arith, omega arith, tt), tt),
    )

deserialize_batch-null_example :
    deserialize_batch_write_record (
      serialize_batch_write_record
        (record { key = b'a' ∷ []; values = (id_column, null_value) ∷ [] } ∷ [])
        3)
    ≡ err (at_column 0 unknown_value_type)
deserialize_batch-null_example =
    deserialize_batch-null (b'a' ∷ []) id_column null_value [] [] 3 (omega arith) (omega arith)
      (omega arith) (omega arith) refl

read_value_binary-ReadsWithin_example :
    ReadsWithin 5 (read_value_binary (1 ∷ 0 ∷ b'n' ∷ 4 ∷ 1 ∷ []))
read_value_binary-ReadsWithin_example = read_value_binary-ReadsWithin (1 ∷ 0 ∷ b'n' ∷ 4 ∷ 1 ∷ [])
