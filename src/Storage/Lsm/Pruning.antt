-- ===== src/Storage/Lsm/Pruning.antt =====
-- pkg/storage/engine_ops.go: ScanRangeWithPruning, which leaves out segments by their statistics.
pub mod Selected
pub mod Kept
mod Runs
use test_db.Prelude.{
  ℕ, zero, suc, Bool, true, false, not, ◌&&◌, Option, none, some, List, [], ◌∷◌, ◌++◌, Str, str_eq,
  if◌then◌else◌, map, filter,
}
use test_db.Index.Sparse.{Stats, can_skip}
use test_db.Query.Predicates.{ColumnPredicate}
use test_db.Storage.Row.{ColumnMeta}
use test_db.Storage.Lsm.Merge.{
  Source, Scan, entries, out_of_fuel, MergeIterator, next, with_entry, new_merge_iterator,
  entries_ahead,
}
use test_db.Storage.Lsm.Segment.{Segment, segment_iterator}
use test_db.Storage.Lsm.Engine.{MemTables, Engine, outside, mem_table_iterator}

-- The entry of colNameToID: of two columns with one name the later counts.
unfoldable pub column_id : Str → List ColumnMeta → Option ℕ
column_id name [] = none
column_id name (c ∷ cs) = elim (column_id name cs) [
  | some id ↦ some id
  | none ↦ if str_eq c.name name then some c.id else none
]

unfoldable pub can_skip_segment : ℕ → List ColumnPredicate → List ColumnMeta → Stats → Bool
can_skip_segment seg [] cols stats = false
can_skip_segment seg (p ∷ ps) cols stats =
    let rest = can_skip_segment seg ps cols stats in
    elim (column_id p.column_name cols) [
      | none ↦ rest
      | some col ↦ if can_skip seg col p.op p.value stats then true else rest
    ]

-- The loop of scanRangeWithPruningUnlocked: an error ends it, and is only logged.
unfoldable pub collect_logged : ℕ → MergeIterator → Scan
collect_logged zero m = out_of_fuel
collect_logged (suc fuel) m =
    let step = next m in
    let rest = collect_logged fuel step.1 in
    if step.0 then with_entry step.1.current rest else entries []

unfoldable pub scan_logged : List Source → Scan
scan_logged ss = collect_logged (suc (entries_ahead ss)) (new_merge_iterator ss)

module _ (t : MemTables) (columns : List ColumnMeta) (stats : Stats) where
  unfoldable pub build_scan_iterators_with_pruning :
      Str → Str → List ColumnPredicate → Engine t → List Source
  build_scan_iterators_with_pruning start end predicates e =
      map (segment_iterator start end) (
        filter
          (λ s. not (outside start end s) && not (can_skip_segment s.id predicates columns stats))
          e.segments)
      ++ (map (mem_table_iterator t start end) e.immutable
          ++ mem_table_iterator t start end e.active_mem ∷ [])

  unfoldable pub scan_range_with_pruning : Str → Str → List ColumnPredicate → Engine t → Scan
  scan_range_with_pruning start end predicates e =
      scan_logged (build_scan_iterators_with_pruning start end predicates e)
