-- ===== src/Storage/Lsm/Pruning/Runs.antt =====
-- Pruned scans (pkg/storage/engine_ops.go) at concrete inputs.
use test_db.Prelude.{
  ℕ, ◌%◌, ◌==◌, Bool, ◌≡◌, refl, true, false, none, some, List, [], ◌∷◌, Str, str_compare, ltb,
}
use test_db.Common.Types.{int64, Value, zero_value}
use test_db.Common.Float.{biased}
use test_db.Index.Sparse.{op_less, Stats, can_skip}
use test_db.Query.Predicates.{ColumnPredicate}
use test_db.Storage.Row.{Columns, ColumnMeta, ScanEntry}
use test_db.Storage.Lsm.Merge.{entries, next, new_merge_iterator, with_entry}
use test_db.Storage.Lsm.Merge.Sources.{IsAscending, row_of}
use test_db.Storage.Lsm.Segment.{Segment, segment_iterator}
use test_db.Storage.Lsm.Engine.{MemTables, Engine, mem_table_iterator}
use test_db.Storage.Lsm.SkipLists.{scan_nodes, scan_behind, find_less, descend, walk}
use test_db.Storage.Lsm.SkipLists.Tables.{skip_tables}
use test_db.Storage.Lsm.Pruning.{
  column_id, can_skip_segment, scan_range_with_pruning, collect_logged, scan_logged,
  build_scan_iterators_with_pruning,
}
use test_db.Storage.Lsm.Pruning.Kept.{pruned-keeps}

abbrev toss : ℕ → Bool
toss n = n % 3 == 0

abbrev tables : MemTables
unfolding skip_tables
tables = skip_tables toss 64

abbrev key_a : Str
key_a = b'a' ∷ []

abbrev key_b : Str
key_b = b'b' ∷ []

abbrev name : Str
name = b'n' ∷ []

abbrev int_value : ℕ → Value
int_value n = record (zero_value int64) { int = n }

abbrev entry : Str → ℕ → ℕ → ScanEntry
entry key id n = record {
  key = key;
  value = record { version = id; columns = (name, int_value n) ∷ []; tombstone = false };
}

abbrev segment_1 : Segment
segment_1 = record {
  id = 1;
  min_key = key_a;
  max_key = key_b;
  rows = entry key_a 1 10 ∷ entry key_b 1 11 ∷ [];
  failure = none;
  readable = λ i. true;
}

abbrev segment_2 : Segment
segment_2 = record {
  id = 2;
  min_key = key_b;
  max_key = key_b;
  rows = entry key_b 2 20 ∷ [];
  failure = none;
  readable = λ i. true;
}

abbrev engine : Engine tables
engine = record {
  active_mem = tables.empty;
  immutable = [];
  segments = segment_1 ∷ segment_2 ∷ [];
  segment_map = segment_2 ∷ segment_1 ∷ [];
  segment_levels = 0 ∷ 0 ∷ [];
  l0_segment_count = 2;
  last_segment_id = 2;
  primary_index = [];
  next_version = 5;
  log = [];
}

abbrev columns : List ColumnMeta
columns = record { id = 1; name = name; typ = int64 } ∷ []

-- The statistics of the second segment.
abbrev stats : Stats
stats =
    (
      record { seg_id = 2; col_id = 1 },
      record {
        min_value = int_value 20;
        max_value = int_value 20;
        null_count = 0;
        has_values = true;
      },
    )
    ∷ []

-- n < 15
abbrev below_15 : List ColumnPredicate
below_15 = record { column_name = name; op = op_less; value = int_value 15 } ∷ []

abbrev is_low : Columns → Bool
is_low [] = false
is_low ((n, v) ∷ cells) = ltb v.int 15

skips_2 : can_skip_segment 2 below_15 columns stats ≡ true
unfolding can_skip_segment column_id can_skip str_compare biased
skips_2 = refl

pruned-keeps_example :
    (es : List ScanEntry) × (scan_range_with_pruning tables columns stats key_a key_b below_15
        engine
      ≡ entries es)
    × IsAscending es
    × (row_of key_a es ≡ some (entry key_a 1 10).value)
unfolding str_compare can_skip_segment column_id can_skip row_of tables
pruned-keeps_example =
    pruned-keeps tables columns stats key_a key_b below_15 engine (λ r. is_low r.columns) key_a
      (entry key_a 1 10).value
      (
        record {
          ascending = ((refl, tt), (tt, tt));
          bounded = ((refl, refl), ((refl, refl), tt));
          decodes = refl;
        },
        (record { ascending = (tt, tt); bounded = ((refl, refl), tt); decodes = refl }, tt),
      )
      (λ h. absurd (cc (h)), (λ h. (refl, tt), tt)) refl refl refl

-- The row of b that the scan shows is older than the one that a reader sees.
stale_b :
    scan_range_with_pruning tables columns stats key_a key_b below_15 engine
    ≡ entries (entry key_a 1 10 ∷ entry key_b 1 11 ∷ [])
unfolding scan_range_with_pruning str_compare can_skip_segment column_id can_skip tables scan_logged
    build_scan_iterators_with_pruning collect_logged next new_merge_iterator segment_iterator biased
    mem_table_iterator with_entry scan_nodes scan_behind find_less descend walk
stale_b = refl
