-- ===== src/Storage/Wal/Recovery/Runs.antt =====
-- Recovery from the log (pkg/storage/wal_record.go) at concrete inputs.
use test_db.Prelude.{
  ℕ, ◌%◌, ◌==◌, ◌≡◌, refl, Bool, false, Option, none, some, List, [], ◌∷◌, Str, arith, Bytes,
}
use test_db.Common.Types.{int64, zero_value}
use test_db.Storage.Row.{Row, Columns, ColumnMeta}
use test_db.Storage.Wal.Codec.{deserialize_write_record}
use test_db.Storage.Wal.Codec.RoundTrip.{put_columns}
use test_db.Storage.Wal.Recovery.{
  MemTable, type_write, type_checkpoint, apply_write_records, find_last_checkpoint,
}
use test_db.Storage.Wal.Recovery.Replay.{
  Logged, wrote, checkpointed, log_of, writes_of, flushed_version, highest_of, put_all, deleted_log,
  apply_write_records-log_of, get-replayed_delete,
}
use test_db.Storage.Lsm.SkipLists.{empty_table}
use test_db.Storage.Lsm.SkipLists.Tables.{recovery_table}

abbrev toss : ℕ → Bool
toss n = n % 3 == 0

abbrev table : MemTable
unfolding recovery_table
table = recovery_table toss

abbrev key_a : Str
key_a = b'a' ∷ []

abbrev one : Columns
one = (b'n' ∷ [], record (zero_value int64) { int = 1 }) ∷ []

-- The memtable of a new engine.
abbrev empty : table.State
unfolding table
empty = record { mem = empty_table; ascending = tt; counted = refl }

-- The checkpoint of each test's payload is its first byte.
abbrev first_byte : Bytes → Option (ℕ × List ColumnMeta)
first_byte [] = none
first_byte (b ∷ bs) = some (b, [])

last_checkpoint :
    find_last_checkpoint first_byte (
      record { typ = type_checkpoint; payload = 9 ∷ [] }
      ∷ record { typ = type_checkpoint; payload = [] }
      ∷ record { typ = type_write; payload = 11 ∷ [] }
      ∷ record { typ = type_checkpoint; payload = 5 ∷ [] }
      ∷ [])
    ≡ (9, [])
unfolding find_last_checkpoint
last_checkpoint = refl

unreadable :
    apply_write_records table (record { typ = type_write; payload = [] } ∷ []) 0 empty
    ≡ (0, 1, empty)
unfolding apply_write_records deserialize_write_record
unreadable = refl

-- A write, a checkpoint at version 5, and another write.
abbrev log : List Logged
log =
    wrote (record { key = key_a; version = 4; columns = one })
    ∷ checkpointed (5 ∷ [])
    ∷ wrote (record { key = b'b' ∷ []; version = 6; columns = [] })
    ∷ []

abbrev row_b : Row
row_b = record { version = 6; columns = []; tombstone = false }

apply_write_records-log_of_example :
    ((find_last_checkpoint first_byte (log_of log)).0 ≡ 5)
    × (apply_write_records table (log_of log) (find_last_checkpoint first_byte (log_of log)).0 empty
        ≡ (6, 0, table.put (b'b' ∷ []) row_b empty))
unfolding highest_of put_all writes_of flushed_version put_columns table
apply_write_records-log_of_example = apply_write_records-log_of table first_byte log empty (
  (omega arith, omega arith, omega arith, ((omega arith, omega arith), tt)),
  ((omega arith, omega arith, omega arith, tt), tt),
)

get-replayed_delete_example :
    table.get key_a
      (apply_write_records table
        (deleted_log log key_a 8)
        (find_last_checkpoint first_byte (deleted_log log key_a 8)).0
        empty).2
    ≡ some (record { version = 8; columns = []; tombstone = false })
unfolding writes_of find_last_checkpoint log_of table
get-replayed_delete_example =
    get-replayed_delete table first_byte log key_a 8 empty
      (
        (omega arith, omega arith, omega arith, ((omega arith, omega arith), tt)),
        ((omega arith, omega arith, omega arith, tt), tt),
      )
      (omega arith) (omega arith) refl refl
