-- ===== src/Storage/Lsm/Engine.antt =====
-- pkg/storage/engine.go and engine_ops.go: writes and deletes through the log into the active memtable,
-- its rotation, and the scan over all segments and memtables.
pub mod Scans
pub mod Ids
pub mod Reads
pub mod Visible
pub mod Writes
use test_db.Prelude.{
  ℕ, zero, suc, ◌+◌, ◌%◌, ◌^◌, ◌≡◌, Bool, true, false, not, ◌&&◌, ◌||◌, Option, none, some, List,
  [], ◌∷◌, ◌++◌, Str, str_eq, str_ltb, ltb, ◌==◌, if◌then◌else◌, length, map, filter,
}
use test_db.Storage.Row.{Row, Columns, ScanEntry}
use test_db.Storage.Wal.Codec.{serialize_write_record}
use test_db.Storage.Wal.Recovery.{RawRecord, type_write}
use test_db.Storage.Lsm.Merge.{Source, Scan, entries, failed, out_of_fuel, scan_sources}
use test_db.Storage.Lsm.Merge.Sources.{IsAscending, row_of, or_else}
use test_db.Storage.Lsm.Merge.Kept.{live}
use test_db.Storage.Lsm.Segment.{Segment, segment_iterator}
use test_db.Storage.Lsm.Segment.Ranges.{in_range}
use test_db.Storage.Lsm.PointReads.{get_from_segments}
use test_db.Index.Primary.{SegmentMeta}

-- What the engine uses of a MemTable: a map from keys to rows, whose rows stand in `entries` (All) in
-- the order of their keys. `put` is Put, `none` where it refuses a frozen table.
pub record MemTables : Type 1 where
  pub State : Type 0
  pub empty : State
  pub entries : State → List ScanEntry
  pub len : State → ℕ
  pub should_flush : State → Bool
  pub is_frozen : State → Bool
  pub freeze : State → State
  pub put : Str → Row → State → Option State
  pub get : Str → State → Option Row
  pub scan : Str → Str → State → List ScanEntry
  pub entries-IsAscending : (m : State) → IsAscending (entries m)
  pub entries-empty : entries empty ≡ []
  pub empty_is_frozen : is_frozen empty ≡ false
  pub len-entries : (m : State) → len m ≡ length (entries m)
  pub entries-freeze : (m : State) → entries (freeze m) ≡ entries m
  pub get-row_of : (k : Str) (m : State) → get k m ≡ row_of k (entries m)
  pub put-some :
      (k : Str) (r : Row) (m : State) → is_frozen m ≡ false → (m' : State) × (put k r m ≡ some m')
  pub entries-put :
      (k j : Str) (r : Row) (m m' : State)
      → put k r m ≡ some m'
      → row_of j (entries m') ≡ (if str_eq k j then some r else row_of j (entries m))
  pub put-is_frozen :
      (k : Str) (r : Row) (m m' : State) → put k r m ≡ some m' → is_frozen m' ≡ false
  pub scan-filter :
      (start end : Str) (m : State) → scan start end m ≡ filter (in_range start end) (entries m)

pub data Error : Type 0 where
  empty_key read_only : Error
  wal_append : Str → Error
  wal_sync : Str → Error

-- What appending to the log and syncing it give: an error, or success.
pub record Io : Type 0 where
  pub appended : Option Str
  pub synced : Option Str

-- seg.MinKey > end || seg.MaxKey < start
abbrev pub outside : Str → Str → Segment → Bool
outside start end seg = str_ltb end seg.min_key || str_ltb seg.max_key start

-- The rows, and none where the scan fails: the error is dropped.
unfoldable pub scanned_rows : Scan → List ScanEntry
scanned_rows (entries es) = es
scanned_rows (failed x) = []
scanned_rows out_of_fuel = []

module _ (t : MemTables) where
  pub record Engine : Type 0 where
    pub active_mem : t.State
    pub immutable : List t.State
    pub segments : List Segment
    pub segment_levels : List ℕ
    pub l0_segment_count : ℕ
    pub last_segment_id : ℕ
    pub segment_map : List Segment
    pub primary_index : List SegmentMeta
    pub next_version : ℕ
    pub log : List RawRecord

  unfoldable pub rotate_mem_table : Engine → Engine
  rotate_mem_table e =
      if t.len e.active_mem == 0
      then e
      else record e { immutable = e.immutable ++ t.freeze e.active_mem ∷ []; active_mem = t.empty }

  -- From the newest of the frozen memtables to the oldest.
  unfoldable pub get_immutable : Str → List t.State → Option Row
  get_immutable key [] = none
  get_immutable key (m ∷ ms) = or_else (get_immutable key ms) (t.get key m)

  -- Get, whose result for a tombstone is that for a key that is not there.
  unfoldable pub get : (ℕ → Str → Bool) → Str → Engine → Option Row
  unfolding get_immutable
  get may_contain key e = live (
      or_else (t.get key e.active_mem) (
        or_else (get_immutable key e.immutable)
          (get_from_segments may_contain key e.segment_map e.primary_index)))

  -- The rotation of a full memtable, and Put, under the lock.
  unfoldable pub put_active : Str → Row → Engine → Option Error × Engine
  put_active key row e =
      let e' = if t.should_flush e.active_mem then rotate_mem_table e else e in
      elim (t.put key row e'.active_mem) [
        | none ↦ (some read_only, e')
        | some m ↦ (none, record e' { active_mem = m })
      ]

  -- AppendWrite and the sync after it; a record stays in the log when the sync fails.
  unfoldable pub log_write : Io → Str → ℕ → Columns → Engine → Option Error × Engine
  log_write io key version columns e = elim io.appended [
    | some x ↦ (some (wal_append x), e)
    | none ↦
        let e' : Engine = record e {
          log =
              e.log
              ++ record { typ = type_write; payload = serialize_write_record key version columns }
                ∷ [];
        } in
        elim io.synced [ some x ↦ (some (wal_sync x), e') | none ↦ (none, e') ]
  ]

  unfoldable pub then_put : Str → Row → Option Error × Engine → Option Error × Engine
  then_put key row (some x, e) = (some x, e)
  then_put key row (none, e) = put_active key row e

  abbrev pub next_row : Columns → Bool → Engine → Row
  next_row columns dead e = record {
    version = (e.next_version + 1) % 2 ^ 64;
    columns = columns;
    tombstone = dead;
  }

  -- What Write and Delete share: the next version, the record of the log and the row of the memtable.
  unfoldable pub write_row : Io → Str → Row → Engine → Option Error × Engine
  unfolding then_put log_write
  write_row io key row e =
      then_put key row
        (log_write io key row.version row.columns (record e { next_version = row.version }))

  unfoldable pub write : Io → Str → Columns → Engine → Option Error × Engine
  unfolding write_row
  write io key values e =
      if str_eq key [] then (some empty_key, e) else write_row io key (next_row values false e) e

  unfoldable pub delete : Io → Str → Engine → Option Error × Engine
  unfolding write_row
  delete io key e =
      if str_eq key [] then (some empty_key, e) else write_row io key (next_row [] true e) e

  unfoldable pub mem_table_iterator : Str → Str → t.State → Source
  mem_table_iterator start end m = record { ahead = t.scan start end m; failure = none }

  -- The segments first, then the frozen memtables, then the active one.
  unfoldable pub build_scan_iterators : Str → Str → Engine → List Source
  unfolding segment_iterator mem_table_iterator
  build_scan_iterators start end e =
      map (segment_iterator start end) (filter (λ s. not (outside start end s)) e.segments)
      ++ (map (mem_table_iterator start end) e.immutable
          ++ mem_table_iterator start end e.active_mem ∷ [])

  unfoldable pub scan_range_unlocked : Str → Str → Engine → Scan
  scan_range_unlocked start end e = scan_sources (build_scan_iterators start end e)

  unfoldable pub scan_range : Str → Str → Engine → List ScanEntry
  unfolding scanned_rows
  scan_range start end e = scanned_rows (scan_range_unlocked start end e)
