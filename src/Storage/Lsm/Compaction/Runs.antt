-- ===== src/Storage/Lsm/Compaction/Runs.antt =====
-- Compaction (pkg/storage/compaction.go) at concrete inputs.
use test_db.Prelude.{
  ℕ, ◌%◌, ◌==◌, Bool, ◌≡◌, refl, false, true, none, some, List, [], ◌∷◌, Str, str_compare,
}
use test_db.Common.Types.{int64, zero_value}
use test_db.Index.Primary.InsertionSort.{sorter}
use test_db.Storage.Row.{Columns, ColumnMeta, ScanEntry}
use test_db.Storage.Lsm.Segment.{Segment}
use test_db.Storage.Lsm.Engine.{MemTables, Engine}
use test_db.Storage.Lsm.Engine.Visible.{visible}
use test_db.Storage.Lsm.SkipLists.Tables.{skip_tables}
use test_db.Storage.Lsm.Compaction.{
  build_columns, build_column, value_of_column, meta_of, compact, compact_end, compact_begin,
  picked, collect_segments_by_level, replace_segments, compact_segments, built, merge_segments,
  first_undecoded, sort_segs_by_id, insert_segment, build_segment, merge_loop, add_segment, cleaned,
  delete_segment, is_compacted, last_key, add_registered, remaining_levels,
  remove_compacted_segments, unregister_compacted,
}
use test_db.Storage.Lsm.Merge.{
  entries_ahead, heap_top, advance, entry_at, head_top, heap_less, least_top,
}
use test_db.Storage.Lsm.Merge.Sources.{row_of}
use test_db.Index.Primary.{register_segment, unregister_segment, without_id}
use test_db.Storage.Lsm.Compaction.Ended.{io_done}
use test_db.Storage.Lsm.Compaction.Replaced.{columns_of}

abbrev toss : ℕ → Bool
toss n = n % 3 == 0

abbrev tables : MemTables
unfolding skip_tables
tables = skip_tables toss 64

abbrev key_a : Str
key_a = b'a' ∷ []

abbrev key_b : Str
key_b = b'b' ∷ []

abbrev cells : ℕ → Columns
cells n = (key_a, record (zero_value int64) { int = n }) ∷ []

abbrev cols : List ColumnMeta
cols = record { id = 0; name = key_a; typ = int64 } ∷ []

abbrev entry : Str → ℕ → ℕ → ScanEntry
entry key id n = record {
  key = key;
  value = record { version = id; columns = cells n; tombstone = false };
}

-- Two segments, of which the newer has another row of b.
abbrev segment_1 : Segment
segment_1 = record {
  id = 1;
  min_key = key_a;
  max_key = key_b;
  rows = entry key_a 1 10 ∷ entry key_b 1 11 ∷ [];
  failure = none;
  readable = λ i. true;
}

abbrev segment_2 : Segment
segment_2 = record {
  id = 2;
  min_key = key_b;
  max_key = key_b;
  rows = entry key_b 2 20 ∷ [];
  failure = none;
  readable = λ i. true;
}

abbrev engine : Engine tables
engine = record {
  active_mem = tables.empty;
  immutable = [];
  segments = segment_1 ∷ segment_2 ∷ [];
  segment_map = segment_2 ∷ segment_1 ∷ [];
  segment_levels = 1 ∷ 0 ∷ [];
  l0_segment_count = 1;
  last_segment_id = 2;
  primary_index = meta_of segment_1 1 ∷ meta_of segment_2 0 ∷ [];
  next_version = 5;
  log = [];
}

keeps_b :
    columns_of (visible tables (compact tables sorter io_done cols engine).1 key_b)
    ≡ some (cells 20)
unfolding build_columns build_column value_of_column compact str_compare row_of tables compact_end
    compact_begin picked collect_segments_by_level replace_segments compact_segments built
    merge_segments first_undecoded sort_segs_by_id insert_segment build_segment merge_loop
    add_segment cleaned delete_segment is_compacted last_key add_registered remaining_levels
    remove_compacted_segments unregister_compacted entries_ahead heap_top advance entry_at head_top
    heap_less least_top register_segment unregister_segment without_id
keeps_b = refl

-- A segment that comes between the two parts of a compaction, with a newer row of b: its ID is less
-- than the compacted segment's and its place before it, so the older row is seen again.
abbrev segment_3 : Segment
segment_3 = record {
  id = 3;
  min_key = key_b;
  max_key = key_b;
  rows = entry key_b 3 30 ∷ [];
  failure = none;
  readable = λ i. true;
}

abbrev flushed : Engine tables
unfolding add_segment
flushed = (add_segment tables sorter none segment_3 0 (record engine { last_segment_id = 3 })).1

abbrev stale : Engine tables
stale = (compact_end tables sorter io_done cols (compact_begin tables engine) flushed).1

newest_b : columns_of (visible tables flushed key_b) ≡ some (cells 30)
unfolding str_compare row_of tables flushed add_registered register_segment
newest_b = refl

stale_b : columns_of (visible tables stale key_b) ≡ some (cells 20)
unfolding build_columns build_column value_of_column flushed str_compare row_of tables compact_end
    compact_begin picked collect_segments_by_level replace_segments compact_segments built
    merge_segments first_undecoded sort_segs_by_id insert_segment build_segment merge_loop
    add_segment cleaned delete_segment is_compacted last_key add_registered remaining_levels
    remove_compacted_segments unregister_compacted entries_ahead heap_top advance entry_at head_top
    heap_less least_top register_segment unregister_segment without_id
stale_b = refl
