-- ===== src/Storage/Lsm/PointReads.antt =====
-- pkg/storage/engine_ops.go: the part of Get that looks into the segments.
use test_db.Prelude.{
  ℕ, zero, suc, Bool, false, Option, none, some, List, [], ◌∷◌, Str, ltb, ◌==◌, if◌then◌else◌,
}
use test_db.Storage.Row.{Row, Columns, ScanEntry}
use test_db.Storage.Lsm.Merge.Sources.{or_else}
use test_db.Storage.Lsm.Segment.{Segment, find_row_by_key}
use test_db.Index.Primary.{SegmentMeta, lookup}

-- segmentMap
unfoldable pub find_segment_by_id : ℕ → List Segment → Option Segment
find_segment_by_id id [] = none
find_segment_by_id id (s ∷ segs) = if s.id == id then some s else find_segment_by_id id segs

-- sort.Slice of the IDs
unfoldable pub insert_id : ℕ → List ℕ → List ℕ
insert_id i [] = i ∷ []
insert_id i (j ∷ js) = let rest = insert_id i js in if ltb j i then j ∷ rest else i ∷ j ∷ js

unfoldable pub sort_ids : List ℕ → List ℕ
sort_ids [] = []
sort_ids (i ∷ is) = insert_id i (sort_ids is)

-- The loop over the columns, which leaves out those that cannot be read; `i` is the next index.
unfoldable pub fetch_columns : (ℕ → Bool) → ℕ → Columns → Columns
fetch_columns readable i [] = []
fetch_columns readable i (c ∷ cs) =
    let rest = fetch_columns readable (suc i) cs in if readable i then c ∷ rest else rest

-- The columns of a row of a segment, with the segment's ID as version.
unfoldable pub row_at : Segment → List ScanEntry → ℕ → Option Row
unfolding fetch_columns
row_at seg [] i = none
row_at seg (e ∷ es) zero = some (record {
  version = seg.id;
  columns = fetch_columns seg.readable 0 e.value.columns;
  tombstone = false;
})
row_at seg (e ∷ es) (suc i) = row_at seg es i

unfoldable pub get_from_found : Str → Option Segment → Option Row
unfolding row_at
get_from_found key none = none
get_from_found key (some seg) = elim (find_row_by_key key seg.rows) [
  | none ↦ none
  | some i ↦ row_at seg seg.rows i
]

-- A round of the loop over the IDs: the Bloom filter, the map and the search in the segment.
unfoldable pub get_from_segment : (ℕ → Str → Bool) → Str → List Segment → ℕ → Option Row
unfolding get_from_found
get_from_segment may_contain key segs id =
    if may_contain id key then get_from_found key (find_segment_by_id id segs) else none

-- From the last of the IDs to the first.
unfoldable pub get_from_ids : (ℕ → Str → Bool) → Str → List Segment → List ℕ → Option Row
unfolding get_from_segment
get_from_ids may_contain key segs [] = none
get_from_ids may_contain key segs (i ∷ is) =
    or_else (get_from_ids may_contain key segs is) (get_from_segment may_contain key segs i)

unfoldable pub get_from_segments :
    (ℕ → Str → Bool) → Str → List Segment → List SegmentMeta → Option Row
get_from_segments may_contain key segs idx =
    get_from_ids may_contain key segs (sort_ids (lookup key idx))
