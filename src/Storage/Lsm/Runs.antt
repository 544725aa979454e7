-- ===== src/Storage/Lsm/Runs.antt =====
-- Scans over several sources, and writes to the LSM engine (pkg/storage), at concrete inputs.
use mathlib.Core.List.Perm
use test_db.Prelude.{
  ℕ, ◌%◌, ◌==◌, Bool, ◌≡◌, refl, arith, true, false, none, some, List, [], ◌∷◌, Str, str_eq,
  str_compare, if◌then◌else◌,
}
use test_db.Storage.Row.{Row, ScanEntry, WriteRow}
use test_db.Storage.Lsm.Batch.{row_without_key, write_batch}
use test_db.Storage.Lsm.Batch.Each.{write_each, batch-each}
use test_db.Storage.Lsm.Merge.{Source, entries, scan_sources}
use test_db.Storage.Lsm.Merge.Sources.{IsAscending, row_of}
use test_db.Storage.Lsm.Merge.Kept.{IsScanOf}
use test_db.Storage.Lsm.Merge.Contract.{scan_sources-IsScanOf}
use test_db.Storage.Lsm.Segment.{Segment}
use test_db.Storage.Lsm.Engine.{
  MemTables, Engine, write, delete, next_row, scan_range_unlocked, scan_range, get,
}
use test_db.Storage.Lsm.Engine.Scans.{key_in, IsWellFormed}
use test_db.Storage.Lsm.PointReads.{find_segment_by_id}
use test_db.Storage.Lsm.Engine.Reads.{IsConsistent, get-visible}
use test_db.Storage.Lsm.Engine.Visible.{visible, scan_range-visible}
use test_db.Storage.Lsm.Engine.Writes.{IsOpen, io_fine, visible-write-delete}
use test_db.Storage.Lsm.SkipLists.Tables.{skip_tables}

abbrev key_a : Str
key_a = b'a' ∷ []

abbrev key_b : Str
key_b = b'b' ∷ []

abbrev key_c : Str
key_c = b'c' ∷ []

abbrev sample_row : ℕ → Row
sample_row n = record { version = n; columns = []; tombstone = false }

abbrev grave : Row
grave = record { version = 9; columns = []; tombstone = true }

-- An old source with the keys a, b and c, and a newer one with another row of b and a tombstone of c.
abbrev old_rows : List ScanEntry
old_rows =
    record { key = key_a; value = sample_row 1 }
    ∷ record { key = key_b; value = sample_row 1 }
    ∷ record { key = key_c; value = sample_row 1 }
    ∷ []

abbrev new_rows : List ScanEntry
new_rows = record { key = key_b; value = sample_row 4 } ∷ record { key = key_c; value = grave } ∷ []

abbrev sources : List Source
sources =
    record { ahead = old_rows; failure = none } ∷ record { ahead = new_rows; failure = none } ∷ []

merges :
    scan_sources sources
    ≡ entries (
        record { key = key_a; value = sample_row 1 }
        ∷ record { key = key_b; value = sample_row 4 }
        ∷ [])
unfolding scan_sources str_compare
merges = refl

scan_sources-IsScanOf_example :
    (es : List ScanEntry) × (scan_sources sources ≡ entries es) × IsScanOf sources es
unfolding str_compare
scan_sources-IsScanOf_example =
    scan_sources-IsScanOf sources
      (((refl, (refl, tt)), ((refl, tt), (tt, tt))), (((refl, tt), (tt, tt)), tt))
      (refl, (refl, tt))

abbrev toss : ℕ → Bool
toss n = n % 3 == 0

abbrev tables : MemTables
unfolding skip_tables
tables = skip_tables toss 64

abbrev old_segment : Segment
old_segment = record {
  id = 1;
  min_key = key_a;
  max_key = key_c;
  rows = old_rows;
  failure = none;
  readable = λ i. true;
}

abbrev engine : Engine tables
engine = record {
  active_mem = tables.empty;
  immutable = [];
  segments = old_segment ∷ [];
  segment_map = old_segment ∷ [];
  segment_levels = 0 ∷ [];
  l0_segment_count = 1;
  last_segment_id = 1;
  primary_index = record { id = 1; min_key = key_a; max_key = key_c; level = 0 } ∷ [];
  next_version = 5;
  log = [];
}

old_segment-IsWellFormed : IsWellFormed old_segment
unfolding str_compare
old_segment-IsWellFormed = record {
  ascending = ((refl, (refl, tt)), ((refl, tt), (tt, tt)));
  bounded = ((refl, refl), ((refl, refl), ((refl, refl), tt)));
  decodes = refl;
}

scan_range-visible_example :
    (es : List ScanEntry) × (scan_range_unlocked tables key_a key_b engine ≡ entries es)
    × (scan_range tables key_a key_b engine ≡ es)
    × IsAscending es
    × ((j : Str) → row_of j es ≡ (if key_in key_a key_b j then visible tables engine j else none))
scan_range-visible_example =
    scan_range-visible tables engine key_a key_b (old_segment-IsWellFormed, tt)

visible-write-delete_example :
    let w = write tables io_fine key_b [] engine in
    let d = delete tables io_fine key_b engine in
    (w.0 ≡ none)
    × IsOpen tables w.1
    × ((j : Str)
        → visible tables w.1 j ≡ (
            if str_eq key_b j
            then some (next_row tables [] false engine)
            else visible tables engine j))
    × (d.0 ≡ none)
    × IsOpen tables d.1
    × ((j : Str)
        → visible tables d.1 j ≡ (if str_eq key_b j then none else visible tables engine j))
unfolding str_compare tables
visible-write-delete_example = visible-write-delete tables key_b [] engine refl refl

-- The filter of the only segment lets every key pass.
abbrev all_pass : ℕ → Str → Bool
all_pass id key = true

engine-IsConsistent : IsConsistent all_pass engine.segments engine.segment_map engine.primary_index
unfolding find_segment_by_id
engine-IsConsistent = record {
  reachable = (
    record {
      well_formed = old_segment-IsWellFormed;
      found = refl;
      passes = λ key h. absurd (cc (h));
      bears_id = (refl, (refl, (refl, tt)));
      readable = (tt, (tt, (tt, tt)));
    },
    tt,
  );
  rising = (tt, tt);
  registered = Perm.refl _;
  ascending = (tt, tt);
}

get-visible_example : get tables all_pass key_b engine ≡ visible tables engine key_b
unfolding str_compare
get-visible_example = get-visible tables all_pass engine key_b refl engine-IsConsistent

-- A batch with two rows of b.
abbrev batch : List WriteRow
batch =
    record { key = key_a; values = [] }
    ∷ record { key = key_b; values = [] }
    ∷ record { key = key_b; values = [] }
    ∷ []

batch-each_example :
    let b = write_batch tables io_fine batch engine in
    let s = write_each tables batch engine in
    (b.0 ≡ none)
    × (s.0 ≡ none)
    × IsOpen tables b.1
    × IsOpen tables s.1
    × ((j : Str) → visible tables b.1 j ≡ visible tables s.1 j)
unfolding str_compare tables row_without_key
batch-each_example = batch-each tables batch engine refl (omega arith) (omega arith) refl
