-- ===== src/Storage/Lsm/Batch.antt =====
-- pkg/storage/engine_ops.go: WriteBatch of the LSM engine.
pub mod Each
use test_db.Prelude.{
  ℕ, zero, suc, ◌+◌, ◌-◌, ◌%◌, ◌^◌, Bool, true, false, Option, none, some, List, [], ◌∷◌, ◌++◌, Str,
  str_eq, if◌then◌else◌, length,
}
use test_db.Storage.Row.{Row, WriteRow}
use test_db.Storage.Wal.Codec.{serialize_batch_write_record}
use test_db.Storage.Wal.Recovery.{RawRecord, type_batch_write}
use test_db.Storage.Lsm.Engine.{MemTables, Engine, Io, rotate_mem_table}

pub data Error : Type 0 where
  empty_key_at : ℕ → Error
  wal_append wal_sync : Str → Error
  read_only : Error

-- The first row without a key.
unfoldable pub row_without_key : ℕ → List WriteRow → Option ℕ
row_without_key i [] = none
row_without_key i (r ∷ rs) =
    let rest = row_without_key (i + 1) rs in if str_eq r.key [] then some i else rest

-- e.nextVersion.Add(uint64(len(rows))) - uint64(len(rows)) + 1
abbrev pub base_version : ℕ → ℕ → ℕ
base_version next n = ((next + n) % 2 ^ 64 + 2 ^ 64 - n % 2 ^ 64 + 1) % 2 ^ 64

module _ (t : MemTables) where
  abbrev pub batch_row : ℕ → WriteRow → Row
  batch_row version r = record { version = version; columns = r.values; tombstone = false }

  -- The loop over the rows; those before a failure stay.
  unfoldable pub put_rows : ℕ → List WriteRow → Engine t → Option Error × Engine t
  put_rows version [] e = (none, e)
  put_rows version (r ∷ rs) e = elim (t.put r.key (batch_row version r) e.active_mem) [
    | none ↦ (some read_only, e)
    | some m ↦ put_rows ((version + 1) % 2 ^ 64) rs (record e { active_mem = m })
  ]

  unfoldable pub then_rotate : Option Error × Engine t → Option Error × Engine t
  then_rotate (some x, e) = (some x, e)
  then_rotate (none, e) = (none, if t.should_flush e.active_mem then rotate_mem_table t e else e)

  -- The one record of the log, its sync, and the rows under the lock.
  unfoldable pub put_batch : Io → ℕ → List WriteRow → Engine t → Option Error × Engine t
  put_batch io base rows e = elim io.appended [
    | some x ↦ (some (wal_append x), e)
    | none ↦
        let e' : Engine t = record e {
          log =
              e.log
              ++ record { typ = type_batch_write; payload = serialize_batch_write_record rows base }
                ∷ [];
        } in
        elim io.synced [
          | some x ↦ (some (wal_sync x), e')
          | none ↦ then_rotate (put_rows base rows e')
        ]
  ]

  unfoldable pub write_batch : Io → List WriteRow → Engine t → Option Error × Engine t
  write_batch io [] e = (none, e)
  write_batch io (r ∷ rs) e =
      let n = length (r ∷ rs) in
      elim (row_without_key 0 (r ∷ rs)) [
        | some i ↦ (some (empty_key_at i), e)
        | none ↦
            put_batch io (base_version e.next_version n) (r ∷ rs)
              (record e { next_version = (e.next_version + n) % 2 ^ 64 })
      ]
