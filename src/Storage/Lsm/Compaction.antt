-- ===== src/Storage/Lsm/Compaction.antt =====
-- pkg/storage/compaction.go: the merge of segments into one, and the compaction of the engine's two
-- levels; addSegment of pkg/storage/engine_ops.go.
pub mod Merged
pub mod Merging
pub mod Picked
pub mod Rebuilt
pub mod Ended
pub mod Replaced
mod Runs
use test_db.Prelude.{
  ℕ, zero, suc, ◌+◌, ◌-◌, ◌%◌, ◌^◌, Bool, true, false, not, ◌&&◌, Option, none, some, List, [], ◌∷◌,
  ◌++◌, Str, str_eq, ltb, ◌==◌, if◌then◌else◌, map, filter, length,
}
use test_db.Index.Primary
use test_db.Index.Primary.{SegmentMeta, SliceSort, register_segment, unregister_segment}
use test_db.Common.Types.{Value, new_null}
use test_db.Storage.Row.{Row, Columns, ColumnMeta, ScanEntry}
use test_db.Storage.Lsm.Merge.{Source, heap_top, advance, entry_at, entries_ahead}
use test_db.Storage.Lsm.Segment.{Segment}
use test_db.Storage.Lsm.Engine.{MemTables, Engine}

-- sortSegsByID
unfoldable pub insert_segment : Segment → List Segment → List Segment
insert_segment s [] = s ∷ []
insert_segment s (x ∷ xs) =
    let rest = insert_segment s xs in if ltb x.id s.id then x ∷ rest else s ∷ x ∷ xs

unfoldable pub sort_segs_by_id : List Segment → List Segment
sort_segs_by_id [] = []
sort_segs_by_id (s ∷ segs) = insert_segment s (sort_segs_by_id segs)

-- The loop over the heap. The readers are sources as in the iterator's merge, and compactionHeap has
-- the order of mergeHeap; `prev` is prevKey.
unfoldable pub merge_loop : ℕ → List Source → Str → List ScanEntry
merge_loop zero ss prev = []
merge_loop (suc fuel) ss prev = elim (heap_top 0 ss) [
  | none ↦ []
  | some (key, i) ↦
      let rest = merge_loop fuel (advance i ss) key in
      if str_eq key prev then rest else record { key = key; value = (entry_at i ss).value } ∷ rest
]

abbrev pub reader : Segment → Source
reader s = record { ahead = s.rows; failure = none }

-- A segment without rows is not decoded.
unfoldable pub first_undecoded : List Segment → Option Str
first_undecoded [] = none
first_undecoded (s ∷ segs) = elim s.rows [
  | [] ↦ first_undecoded segs
  | e ∷ es ↦ elim s.failure [ none ↦ first_undecoded segs | some x ↦ some x ]
]

pub data Error : Type 0 where
  no_segments empty_result : Error
  merge_segments_failed build_segment_failed register_bloom_failed cleanup_failed : Str → Error
  register_primary_failed : Primary.Error → Error

pub data Result {ℓ} (A : Type ℓ) : Type ℓ where
  ok : A → Result A
  err : Error → Result A

unfoldable pub merge_segments : List Segment → Result (List ScanEntry)
merge_segments segs =
    let readers = map reader (sort_segs_by_id segs) in
    elim (first_undecoded (sort_segs_by_id segs)) [
      | some x ↦ err (merge_segments_failed x)
      | none ↦ ok (merge_loop (entries_ahead readers) readers [])
    ]

-- Values[colIdx], where there is one
unfoldable pub value_of_column : ℕ → Columns → Option Value
value_of_column i [] = none
value_of_column zero (c ∷ cs) = some c.1
value_of_column (suc i) (c ∷ cs) = value_of_column i cs

-- What buildColumnEncoded puts into a row's cell of a column: NULL where the row has no value there.
unfoldable pub build_column : ℕ → ColumnMeta → Columns → Str × Value
unfolding value_of_column
build_column i col values = elim (value_of_column i values) [
  | none ↦ (col.name, new_null)
  | some v ↦ (col.name, v)
]

-- The loop over the columns, from the index `i` on.
unfoldable pub build_columns : ℕ → List ColumnMeta → Columns → Columns
unfolding build_column
build_columns i [] values = []
build_columns i (col ∷ cols) values = build_column i col values ∷ build_columns (suc i) cols values

abbrev pub stamped_entry : List ColumnMeta → ℕ → ScanEntry → ScanEntry
stamped_entry cols id e = record e {
  value = record {
    version = id;
    columns = build_columns 0 cols e.value.columns;
    tombstone = false;
  };
}

unfoldable pub last_key : ScanEntry → List ScanEntry → Str
last_key e [] = e.key
last_key e (f ∷ es) = last_key f es

-- The segment of merged rows; the error is the builder's or that of writing the file.
unfoldable pub build_segment : Option Str → List ColumnMeta → ℕ → List ScanEntry → Result Segment
unfolding build_columns
build_segment failure cols id [] = err empty_result
build_segment (some x) cols id (e ∷ es) = err (build_segment_failed x)
build_segment none cols id (e ∷ es) = ok (record {
  id = id;
  min_key = e.key;
  max_key = last_key e es;
  rows = map (stamped_entry cols id) (e ∷ es);
  failure = none;
  readable = λ i. ltb i (length cols);
})

unfoldable pub built : Option Str → List ColumnMeta → ℕ → Result (List ScanEntry) → Result Segment
built failure cols id (err x) = err x
built failure cols id (ok rows) = build_segment failure cols id rows

-- Compactor.Compact
unfoldable pub compact_segments : Option Str → List ColumnMeta → ℕ → List Segment → Result Segment
compact_segments failure cols id [] = err no_segments
compact_segments failure cols id (s ∷ segs) = built failure cols id (merge_segments (s ∷ segs))

abbrev pub meta_of : Segment → ℕ → SegmentMeta
meta_of seg level = record {
  id = seg.id;
  min_key = seg.min_key;
  max_key = seg.max_key;
  level = level;
}

unfoldable pub collect_segments_by_level : ℕ → List Segment → List ℕ → List Segment
collect_segments_by_level level (s ∷ segs) (l ∷ ls) =
    let rest = collect_segments_by_level level segs ls in if l == level then s ∷ rest else rest
collect_segments_by_level level _ _ = []

unfoldable pub is_compacted : ℕ → List Segment → Bool
is_compacted id [] = false
is_compacted id (s ∷ segs) = if s.id == id then true else is_compacted id segs

-- delete(e.segmentMap, id)
unfoldable pub delete_segment : ℕ → List Segment → List Segment
delete_segment id [] = []
delete_segment id (s ∷ segs) =
    let rest = delete_segment id segs in if s.id == id then rest else s ∷ rest

-- The levels that stay beside the segments that stay.
unfoldable pub remaining_levels : List Segment → List Segment → List ℕ → List ℕ
remaining_levels gone (s ∷ segs) (l ∷ ls) =
    let rest = remaining_levels gone segs ls in if is_compacted s.id gone then rest else l ∷ rest
remaining_levels gone _ _ = []

unfoldable pub count_l0 : List ℕ → ℕ
count_l0 [] = 0
count_l0 (l ∷ ls) = if l == 0 then suc (count_l0 ls) else count_l0 ls

unfoldable pub picked : List Segment → List Segment → List Segment
picked [] l1 = []
picked (s ∷ l0) l1 = (s ∷ l0) ++ l1

-- What registering and cleaning up give, beside the primary index: the errors of the Bloom index, of
-- building and writing a segment, and of removing files.
pub record Io : Type 0 where
  pub bloom : Option Str
  pub write : Option Str
  pub cleanup : Option Str

module _ (t : MemTables) where
  abbrev pub with_segment : Segment → ℕ → Engine t → Engine t
  with_segment seg level e = record e {
    segments = e.segments ++ seg ∷ [];
    segment_levels = e.segment_levels ++ level ∷ [];
    segment_map = seg ∷ delete_segment seg.id e.segment_map;
    l0_segment_count = if level == 0 then e.l0_segment_count + 1 else e.l0_segment_count;
  }

  -- A failure takes the segment back, but not from an index that has it already.
  unfoldable pub add_registered :
      Option Str
      → Segment
      → ℕ
      → Option Primary.Error × List SegmentMeta
      → Engine t
      → Option Error × Engine t
  add_registered bloom seg level (some x, idx) e = (
    some (register_primary_failed x),
    record e { segment_map = delete_segment seg.id e.segment_map },
  )
  add_registered (some x) seg level (none, idx) e = (
    some (register_bloom_failed x),
    record e { segment_map = delete_segment seg.id e.segment_map; primary_index = idx },
  )
  add_registered none seg level (none, idx) e =
      (none, record (with_segment seg level e) { primary_index = idx })

  unfoldable pub add_segment :
      SliceSort → Option Str → Segment → ℕ → Engine t → Option Error × Engine t
  add_segment sorter bloom seg level e =
      add_registered bloom seg level (register_segment sorter (meta_of seg level) e.primary_index) e

  -- The loop that takes the compacted segments out of the indexes and the map.
  unfoldable pub unregister_compacted : List Segment → List Segment → Engine t → Engine t
  unregister_compacted gone [] e = e
  unregister_compacted gone (s ∷ segs) e =
      let rest = unregister_compacted gone segs (record e {
        primary_index = (unregister_segment s.id e.primary_index).1;
        segment_map = delete_segment s.id e.segment_map;
      }) in
      let kept = unregister_compacted gone segs e in if is_compacted s.id gone then rest else kept

  unfoldable pub remove_compacted_segments : List Segment → Engine t → Engine t
  remove_compacted_segments gone e =
      let levels = remaining_levels gone e.segments e.segment_levels in
      record (unregister_compacted gone e.segments e) {
        segments = filter (λ s. not (is_compacted s.id gone)) e.segments;
        segment_levels = levels;
        l0_segment_count = count_l0 levels;
      }

  -- The part before the lock is given up: the segments to merge, if there are any of level 0.
  unfoldable pub compact_begin : Engine t → List Segment
  compact_begin e =
      picked (collect_segments_by_level 0 e.segments e.segment_levels)
        (collect_segments_by_level 1 e.segments e.segment_levels)

  unfoldable pub cleaned :
      Option Str → List Segment → Option Error × Engine t → Option Error × Engine t
  cleaned cleanup gone (some x, e) = (some x, e)
  cleaned none gone (none, e) = (none, remove_compacted_segments gone e)
  cleaned (some x) gone (none, e) = (some (cleanup_failed x), remove_compacted_segments gone e)

  -- The ID is used up once the rows are merged.
  unfoldable pub after_failure : ℕ → Error → Engine t → Engine t
  after_failure id (build_segment_failed x) e = record e { last_segment_id = id }
  after_failure id _ e = e

  -- The part behind the merge, on the engine as it is then.
  unfoldable pub replace_segments :
      SliceSort → Io → List Segment → ℕ → Result Segment → Engine t → Option Error × Engine t
  replace_segments sorter io gone id (err x) e = (some x, after_failure id x e)
  replace_segments sorter io gone id (ok seg) e =
      cleaned io.cleanup gone
        (add_segment sorter io.bloom seg 1 (record e { last_segment_id = id }))

  unfoldable pub compact_end :
      SliceSort → Io → List ColumnMeta → List Segment → Engine t → Option Error × Engine t
  compact_end sorter io cols [] e = (none, e)
  compact_end sorter io cols (s ∷ segs) e =
      let id = (e.last_segment_id + 1) % 2 ^ 64 in
      replace_segments sorter io (s ∷ segs) id (compact_segments io.write cols id (s ∷ segs)) e

  -- Compact, when nothing comes between.
  unfoldable pub compact : SliceSort → Io → List ColumnMeta → Engine t → Option Error × Engine t
  compact sorter io cols e = compact_end sorter io cols (compact_begin e) e
