-- ===== src/Storage/Lsm/Engine/Visible.antt =====
-- A scan of the engine returns the rows that are visible in its range.
use test_db.Prelude.{
  ◌≡◌, refl, ap, ◌∙◌, arith, not, Option, none, List, [], ◌∷◌, ◌++◌, Str, if◌then◌else◌, filter,
  map, All, Bool-cases, inl, inr,
}
use test_db.Storage.Row.{Row, ScanEntry}
use test_db.Storage.Lsm.Merge.{Source, entries}
use test_db.Storage.Lsm.Merge.Sources.{IsAscending, AllAscending, row_of, or_else, newest}
use test_db.Storage.Lsm.Merge.Front.{NoFailure}
use test_db.Storage.Lsm.Merge.Kept.{live}
use test_db.Storage.Lsm.Merge.Contract.{scan_sources-IsScanOf}
use test_db.Storage.Lsm.Segment.{Segment, segment_iterator}
use test_db.Storage.Lsm.Segment.Ranges.{in_range, segment_iterator-filter}
use test_db.Storage.Lsm.Engine.{
  MemTables, Engine, outside, mem_table_iterator, build_scan_iterators, scanned_rows,
  scan_range_unlocked, scan_range,
}
use test_db.Storage.Lsm.Engine.Scans.{
  key_in, newest_in, newest-append, newest-segments, newest-tables, IsWellFormed, rows_of_segment,
  within, within-or_else, or_else_assoc, IsAscending-filter,
}

module _ (t : MemTables) (e : Engine t) where
  -- The row under a key in the newest of the stores that have it: the active memtable, the frozen ones
  -- and the segments.
  abbrev pub stored : Str → Option Row
  stored j =
      or_else (row_of j (t.entries e.active_mem))
        (or_else (newest_in t.entries j e.immutable) (newest_in rows_of_segment j e.segments))

  -- The row that a reader sees.
  abbrev pub visible : Str → Option Row
  visible j = live (stored j)

-- A source that a scan can rely on.
abbrev Sound : Source → Type 0
Sound s = IsAscending s.ahead × (s.failure ≡ none)

module _ (start end : Str) where
  segment-Sound : (s : Segment) → IsWellFormed s → Sound (segment_iterator start end s)
  segment-Sound s w =
      rw (segment_iterator-filter start end s w.ascending w.decodes)
        (IsAscending-filter (in_range start end) s.rows w.ascending, refl)

  segments-Sound :
      (segs : List Segment)
      → All IsWellFormed segs
      → All Sound (map (segment_iterator start end) (filter (λ s. not (outside start end s)) segs))
  segments-Sound [] w = tt
  segments-Sound (s ∷ segs) w = elim (Bool-cases (outside start end s)) [
    | inl away ↦ rw (away) (segments-Sound segs w.1)
    | inr near ↦ rw (near) (segment-Sound s w.0, segments-Sound segs w.1)
  ]

  table-Sound : (t : MemTables) (m : t.State) → Sound (mem_table_iterator t start end m)
  unfolding mem_table_iterator
  table-Sound t m = (
    rw (t.scan-filter start end m)
        (IsAscending-filter (in_range start end) (t.entries m) (t.entries-IsAscending m)),
    refl,
  )

  tables-Sound :
      (t : MemTables) (ms : List t.State) → All Sound (map (mem_table_iterator t start end) ms)
  tables-Sound t [] = tt
  tables-Sound t (m ∷ ms) = (table-Sound t m, tables-Sound t ms)

Sound-append : (xs ys : List Source) → All Sound xs → All Sound ys → All Sound (xs ++ ys)
Sound-append [] ys h k = k
Sound-append (x ∷ xs) ys h k = (h.0, Sound-append xs ys h.1 k)

Sound-AllAscending : (ss : List Source) → All Sound ss → AllAscending ss
Sound-AllAscending [] h = tt
Sound-AllAscending (s ∷ ss) h = (h.0.0, Sound-AllAscending ss h.1)

Sound-NoFailure : (ss : List Source) → All Sound ss → NoFailure ss
Sound-NoFailure [] h = tt
Sound-NoFailure (s ∷ ss) h = (h.0.1, Sound-NoFailure ss h.1)

iterators-Sound :
    (t : MemTables) (e : Engine t) (start end : Str)
    → All IsWellFormed e.segments
    → All Sound (build_scan_iterators t start end e)
unfolding build_scan_iterators
iterators-Sound t e start end w =
    let tables = map (mem_table_iterator t start end) e.immutable in
    let active : List Source = mem_table_iterator t start end e.active_mem ∷ [] in
    let segs =
      map (segment_iterator start end) (filter (λ s. not (outside start end s)) e.segments) in
    Sound-append segs (tables ++ active) (segments-Sound start end e.segments w) (
      Sound-append tables active (tables-Sound start end t e.immutable)
        (table-Sound start end t e.active_mem, tt))

-- Three stores, each cut to the range, from the newest to the oldest.
joined :
    (start end j : Str) (x y z a b c : Option Row)
    → x ≡ within start end j a
    → y ≡ within start end j b
    → z ≡ within start end j c
    → or_else (or_else x y) z ≡ within start end j (or_else a (or_else b c))
joined start end j x y z a b c ex ey ez =
    ap (λ o. or_else (or_else o y) z) ex
    ∙ ap (λ o. or_else (or_else (within start end j a) o) z) ey
    ∙ ap (or_else (or_else (within start end j a) (within start end j b))) ez
    ∙ ap (λ o. or_else o (within start end j c)) (within-or_else start end j a b)
    ∙ within-or_else start end j (or_else a b) c
    ∙ ap (within start end j) (or_else_assoc a b c)

newest-iterators :
    (t : MemTables) (e : Engine t) (start end j : Str)
    → All IsWellFormed e.segments
    → newest j (build_scan_iterators t start end e) ≡ within start end j (stored t e j)
unfolding build_scan_iterators
newest-iterators t e start end j w =
    let tables = map (mem_table_iterator t start end) e.immutable in
    let active : List Source = mem_table_iterator t start end e.active_mem ∷ [] in
    let segs =
      map (segment_iterator start end) (filter (λ s. not (outside start end s)) e.segments) in
    newest-append j segs (tables ++ active)
    ∙ ap (λ o. or_else o (newest j segs)) (newest-append j tables active)
    ∙ joined start end j (newest j active) (newest j tables) (newest j segs)
        (row_of j (t.entries e.active_mem)) (newest_in t.entries j e.immutable)
        (newest_in rows_of_segment j e.segments) (newest-tables start end j t (e.active_mem ∷ []))
        (newest-tables start end j t e.immutable) (newest-segments start end j e.segments w)

live-within :
    (start end j : Str) (r : Option Row)
    → live (within start end j r) ≡ (if key_in start end j then live r else none)
unfolding within
live-within start end j r = ground arith

-- Over memtables that keep the laws of MemTables, as those of memtable.go do
-- (Storage/Lsm/SkipLists/Tables), and where every segment is well-formed, that is, its keys rise strictly
-- and lie within its bounds and its columns decode: a scan does not fail and returns, with strictly rising
-- keys, exactly the visible rows whose keys lie in the range. Under a key of the range stands the row of the newest of the active memtable, the frozen ones and the
-- segments that have the key, unless it is a tombstone, and under other keys nothing.
pub scan_range-visible :
    (t : MemTables) (e : Engine t) (start end : Str)
    → All IsWellFormed e.segments
    → (es : List ScanEntry) × (scan_range_unlocked t start end e ≡ entries es)
      × (scan_range t start end e ≡ es)
      × IsAscending es
      × ((j : Str) → row_of j es ≡ (if key_in start end j then visible t e j else none))
unfolding scan_range_unlocked scan_range
scan_range-visible t e start end w =
    let sound = iterators-Sound t e start end w in
    let ss = build_scan_iterators t start end e in
    let (es, got, scan) =
      scan_sources-IsScanOf ss (Sound-AllAscending ss sound) (Sound-NoFailure ss sound) in
    (
      es,
      got,
      ap scanned_rows got,
      scan.ascending,
      λ j.
          scan.rows j
          ∙ ap live (newest-iterators t e start end j w)
          ∙ live-within start end j (stored t e j),
    )
