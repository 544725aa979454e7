-- ===== src/Storage/Lsm/Compaction/Replaced.antt =====
-- What readers see when a compaction has put one segment in the place of several.
use test_db.Prelude.{◌+◌, ◌^◌, ◌<◌, ◌≤◌, ◌≡◌, Option, none, some, List, [], Str, All}
use test_db.Storage.Row.{Row, Columns, ColumnMeta, ScanEntry}
use test_db.Storage.Lsm.Segment.{Segment}
use test_db.Storage.Lsm.Engine.{MemTables, Engine}
use test_db.Storage.Lsm.Engine.Visible.{visible}
use test_db.Storage.Lsm.Engine.Ids.{Rising}
use test_db.Storage.Lsm.Compaction.{Error, collect_segments_by_level}
use test_db.Storage.Lsm.Compaction.Merged.{IsMergeable}
use test_db.Storage.Lsm.Compaction.Picked.{HasLevels}
use test_db.Storage.Lsm.Compaction.Rebuilt.{HasColumns}

-- The columns that a reader gets.
abbrev pub columns_of : Option Row → Option Columns
columns_of none = none
columns_of (some r) = some r.columns

module _ (t : MemTables) where
  -- Which engines a compaction finds: each segment is at level 0 or 1, the IDs rise in the order of the
  -- segments up to the last one given out, the next one does not wrap around, and every row of a segment
  -- has the engine's columns in their order.
  pub record IsCompactable (cols : List ColumnMeta) (e : Engine t) : Type 0 where
    pub levels : HasLevels e.segments e.segment_levels
    pub rising : Rising e.segments
    pub mergeable : All IsMergeable e.segments
    pub given : All (λ (s : Segment). s.id ≤ e.last_segment_id) e.segments
    pub room : e.last_segment_id + 1 < 2 ^ 64
    pub columns :
        All
          (λ (s : Segment). All (λ (e : ScanEntry). HasColumns cols e.value.columns) s.rows)
          e.segments

  -- What a compaction leaves: it succeeds, no segment of level 0 is left, and a key has the columns it
  -- had.
  abbrev pub Compacted : Str → Engine t → Option Error × Engine t → Type 0
  Compacted j e r =
      (r.0 ≡ none)
      × (collect_segments_by_level 0 r.1.segments r.1.segment_levels ≡ [])
      × (columns_of (visible t r.1 j) ≡ columns_of (visible t e j))
