-- ===== src/Storage/Lsm/Pruning/Kept.antt =====
-- A pruned scan returns every row that the condition selects.
use test_db.Prelude.{
  ◌≡◌, ap, ◌∙◌, arith, Bool, true, false, not, none, some, List, [], ◌∷◌, ◌++◌, Str, if◌then◌else◌,
  map, filter, All, Bool-cases, inl, inr,
}
use test_db.Index.Sparse.{Stats}
use test_db.Query.Predicates.{ColumnPredicate}
use test_db.Storage.Row.{Row, ColumnMeta, ScanEntry}
use test_db.Storage.Lsm.Merge.{entries}
use test_db.Storage.Lsm.Merge.Sources.{IsAscending, row_of}
use test_db.Storage.Lsm.Segment.{Segment, segment_iterator}
use test_db.Storage.Lsm.Engine.{
  MemTables, Engine, outside, mem_table_iterator, build_scan_iterators, scan_range_unlocked,
}
use test_db.Storage.Lsm.Engine.Scans.{key_in, newest_in, IsWellFormed, rows_of_segment}
use test_db.Storage.Lsm.Engine.Visible.{visible, scan_range-visible}
use test_db.Storage.Lsm.Pruning.{
  can_skip_segment, scan_logged, build_scan_iterators_with_pruning, scan_range_with_pruning,
}
use test_db.Storage.Lsm.Pruning.Selected.{
  LeavesOut, newest_in-some, scan_logged-entries, filter_twice, live_under,
}

-- The segments that are left of those in the range.
iterators-pruned :
    (t : MemTables) (columns : List ColumnMeta) (stats : Stats) (start end : Str)
    (predicates : List ColumnPredicate) (e : Engine t)
    → build_scan_iterators_with_pruning t columns stats start end predicates e
      ≡ build_scan_iterators t start end (record e {
        segments = filter (λ s. not (can_skip_segment s.id predicates columns stats)) e.segments;
      })
unfolding build_scan_iterators_with_pruning build_scan_iterators
iterators-pruned t columns stats start end predicates e =
    ap
      (λ segs.
        map (segment_iterator start end) segs
        ++ (map (mem_table_iterator t start end) e.immutable
            ++ mem_table_iterator t start end e.active_mem ∷ []))
      (filter_twice (λ s. not (outside start end s))
        (λ s. not (can_skip_segment s.id predicates columns stats)) e.segments)

filter-All :
    (keep : Segment → Bool) (segs : List Segment)
    → All IsWellFormed segs
    → All IsWellFormed (filter keep segs)
filter-All keep [] h = tt
filter-All keep (s ∷ segs) h = elim (Bool-cases (keep s)) [
  | inl kept ↦ rw (kept) (h.0, filter-All keep segs h.1)
  | inr out ↦ rw (out) (filter-All keep segs h.1)
]

not-false : (b : Bool) → not b ≡ false → b ≡ true
not-false b h = ground (arith, h)

LeavesOut-skips :
    (p : Row → Bool) (skips : Segment → Bool) (segs : List Segment)
    → All (λ (s : Segment). skips s ≡ true → All (λ (e : ScanEntry). p e.value ≡ false) s.rows) segs
    → LeavesOut p (λ s. not (skips s)) segs
LeavesOut-skips p skips [] h = tt
LeavesOut-skips p skips (s ∷ segs) h =
    (λ out. h.0 (not-false (skips s) out), LeavesOut-skips p skips segs h.1)

-- Over memtables that keep the laws of MemTables, as those of memtable.go do
-- (Storage/Lsm/SkipLists/Tables), where the segments are well-formed (strictly rising keys within the
-- bounds, and columns that decode) and the statistics skip no segment with a row that a condition
-- selects, and a key of the range shows a row that the condition selects: a pruned scan does not fail,
-- its keys rise strictly, and that row stands under the key in the result. (Rows that the condition does
-- not select may be other than the visible ones.)
pub pruned-keeps :
    (t : MemTables) (columns : List ColumnMeta) (stats : Stats) (start end : Str)
    (predicates : List ColumnPredicate) (e : Engine t) (p : Row → Bool) (j : Str) (r : Row)
    → All IsWellFormed e.segments
    → All
        (λ (s : Segment).
          can_skip_segment s.id predicates columns stats ≡ true
          → All (λ (x : ScanEntry). p x.value ≡ false) s.rows)
        e.segments
    → key_in start end j ≡ true
    → visible t e j ≡ some r
    → p r ≡ true
    → (es : List ScanEntry) × (scan_range_with_pruning t columns stats start end predicates e
        ≡ entries es)
      × IsAscending es
      × (row_of j es ≡ some r)
unfolding scan_range_with_pruning scan_range_unlocked
pruned-keeps t columns stats start end predicates e p j r w skips inside seen selected =
    let keep : Segment → Bool = λ s. not (can_skip_segment s.id predicates columns stats) in
    let left : Engine t = record e { segments = filter keep e.segments } in
    let (es, got, listed, ascending, rows) =
      scan_range-visible t left start end (filter-All keep e.segments w) in
    (
      es,
      ap scan_logged (iterators-pruned t columns stats start end predicates e)
          ∙ scan_logged-entries (build_scan_iterators t start end left) es got,
      ascending,
      rows j
          ∙ ap (λ b. if b then visible t left j else none) inside
          ∙ live_under p (row_of j (t.entries e.active_mem)) (newest_in t.entries j e.immutable)
              (newest_in rows_of_segment j e.segments) (newest_in rows_of_segment j left.segments) r
              (newest_in-some p keep j e.segments r
                (LeavesOut-skips p (λ s. can_skip_segment s.id predicates columns stats) e.segments
                  skips)
                selected)
              seen,
    )
