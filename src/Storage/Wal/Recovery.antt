-- ===== src/Storage/Wal/Recovery.antt =====
-- pkg/storage/wal_record.go: what a restart makes of the records of the log.
pub mod Replay
mod Runs
use test_db.Prelude.{
  ℕ, ◌+◌, ◌≡◌, ◌%◌, ◌^◌, Bool, true, false, not, ◌&&◌, Option, none, some, List, [], ◌∷◌, Str,
  str_eq, length, ltb, leb, ◌==◌, if◌then◌else◌, Bytes,
}
use test_db.Storage.Row.{Row, ColumnMeta}
use test_db.Storage.Wal.Codec.{
  Result, ok, err, BatchWriteRow, deserialize_batch_write_record, deserialize_write_record,
}

-- What the replay uses of a MemTable: Put, which a frozen table refuses, and Get.
pub record MemTable : Type 1 where
  pub State : Type 0
  pub is_frozen : State → Bool
  pub put : Str → Row → State → State
  pub get : Str → State → Option Row
  pub put-is_frozen : (key : Str) (row : Row) (m : State) → is_frozen (put key row m) ≡ is_frozen m
  pub put-frozen : (key : Str) (row : Row) (m : State) → is_frozen m ≡ true → put key row m ≡ m
  pub get-put :
      (key : Str) (row : Row) (m : State) → is_frozen m ≡ false → get key (put key row m) ≡ some row
  pub get-put_other :
      (key other : Str) (row : Row) (m : State)
      → is_frozen m ≡ false
      → str_eq key other ≡ false
      → get other (put key row m) ≡ get other m

pub record RawRecord : Type 0 where
  pub typ : ℕ
  pub payload : Bytes

abbrev pub type_write : ℕ
type_write = 1

abbrev pub type_checkpoint : ℕ
type_checkpoint = 3

abbrev pub type_batch_write : ℕ
type_batch_write = 4

-- deserializeCheckpointRecord reads JSON.
abbrev pub ReadCheckpoint : Type 0
ReadCheckpoint = Bytes → Option (ℕ × List ColumnMeta)

-- The loop over the records, with the last version and columns.
unfoldable pub checkpoint_loop :
    ReadCheckpoint → List RawRecord → ℕ → List ColumnMeta → ℕ × List ColumnMeta
checkpoint_loop read [] version meta = (version, meta)
checkpoint_loop read (r ∷ rs) version meta =
    if r.typ == type_checkpoint
    then elim (read r.payload) [
      | none ↦ checkpoint_loop read rs version meta
      | some c ↦
          if ltb version c.0
          then checkpoint_loop read rs c.0 c.1
          else checkpoint_loop read rs version meta
    ]
    else checkpoint_loop read rs version meta

unfoldable pub find_last_checkpoint : ReadCheckpoint → List RawRecord → ℕ × List ColumnMeta
unfolding checkpoint_loop
find_last_checkpoint read records = checkpoint_loop read records 0 []

-- The row that the replay puts: `Tombstone` is not set.
abbrev pub replayed_row : BatchWriteRow → Row
replayed_row r = record { version = r.version; columns = r.values; tombstone = false }

module _ (t : MemTable) where
  -- The version, whether the record was read, and the table.
  unfoldable pub apply_single_write_record : Bytes → ℕ → t.State → ℕ × Bool × t.State
  apply_single_write_record payload flushed m = elim (deserialize_write_record payload) [
    | err e ↦ (0, false, m)
    | ok r ↦
        if leb r.version flushed
        then (0, true, m)
        else (r.version, true, t.put r.key (replayed_row r) m)
  ]

  -- The rows of a batch, with the highest version so far.
  unfoldable pub batch_loop : List BatchWriteRow → ℕ → ℕ → t.State → ℕ × Bool × t.State
  batch_loop [] flushed highest m = (highest, true, m)
  batch_loop (r ∷ rs) flushed highest m =
      if leb r.version flushed
      then batch_loop rs flushed highest m
      else batch_loop rs flushed (if ltb highest r.version then r.version else highest)
          (t.put r.key (replayed_row r) m)

  unfoldable pub apply_batch_write_record : Bytes → ℕ → t.State → ℕ × Bool × t.State
  unfolding batch_loop
  apply_batch_write_record payload flushed m = elim (deserialize_batch_write_record payload) [
    | err e ↦ (0, false, m)
    | ok rows ↦ batch_loop rows flushed 0 m
  ]

  unfoldable pub apply_single_record : RawRecord → ℕ → t.State → ℕ × Bool × t.State
  unfolding apply_single_write_record apply_batch_write_record
  apply_single_record r flushed m =
      if r.typ == type_write
      then apply_single_write_record r.payload flushed m
      else if r.typ == type_batch_write
      then apply_batch_write_record r.payload flushed m
      else (0, true, m)

  -- The loop over the records, with the highest version, the number of those that failed, and the
  -- table so far.
  unfoldable pub write_loop : List RawRecord → ℕ → ℕ → ℕ → t.State → ℕ × ℕ × t.State
  unfolding apply_single_record
  write_loop [] flushed highest failed m = (highest, failed, m)
  write_loop (r ∷ rs) flushed highest failed m =
      let p = apply_single_record r flushed m in
      if p.1
      then write_loop rs flushed (if ltb highest p.0 then p.0 else highest) failed p.2
      else write_loop rs flushed highest (failed + 1) p.2

  unfoldable pub apply_write_records : List RawRecord → ℕ → t.State → ℕ × ℕ × t.State
  unfolding write_loop
  apply_write_records records flushed m = write_loop records flushed 0 0 m

  -- The engine's columns, its next version and its active table.
  abbrev pub Recovered : Type 0
  Recovered = List ColumnMeta × ℕ × t.State

  unfoldable pub replay_wal_records : ReadCheckpoint → List RawRecord → Recovered → Recovered
  unfolding find_last_checkpoint apply_write_records
  replay_wal_records read records e =
      let last = find_last_checkpoint read records in
      let applied = apply_write_records records last.0 e.2 in
      let meta = if length e.0 == 0 then last.1 else e.0 in
      (meta, (if leb e.1 applied.0 then (applied.0 + 1) % 2 ^ 64 else e.1), applied.2)
