-- ===== src/Storage/Lsm/Compaction/Ended.antt =====
-- The engine that a compaction ends with.
use test_db.Prelude.{
  ℕ, ◌+◌, ◌%◌, ◌^◌, ◌<◌, ◌≡◌, refl, ap, ◌∙◌, arith, false, Option, none, some, List, [], ◌∷◌, ◌++◌,
  str_compare_swap, AtMost, ◌==◌, map, All, length, ltb, Bool-cases, ◌⊎◌, inl, inr,
}
use test_db.Index.Primary
use test_db.Index.Primary.{SegmentMeta, SliceSort, register_segment, unregister_segment}
use test_db.Storage.Row.{ColumnMeta, ScanEntry}
use test_db.Storage.Lsm.Segment.{Segment}
use test_db.Storage.Lsm.Engine.{MemTables, Engine}
use test_db.Storage.Lsm.Engine.Ids.{Rising}
use test_db.Storage.Lsm.Compaction.{
  ok, err, merge_segments_failed, Result, sort_segs_by_id, first_undecoded, merge_segments,
  stamped_entry, last_key, build_segment, built, compact_segments, meta_of,
  collect_segments_by_level, is_compacted, Io, with_segment, add_registered, add_segment,
  unregister_compacted, remove_compacted_segments, cleaned, replace_segments, compact_end,
}
use test_db.Storage.Lsm.Compaction.Merged.{IsMergeable, first_undecoded-none, merged_rows}
use test_db.Storage.Lsm.Compaction.Picked.{HasLevels, sort-collected}

abbrev merged : List Segment → Result (List ScanEntry)
merged segs = elim (first_undecoded segs) [
  | some x ↦ err (merge_segments_failed x)
  | none ↦ ok (merged_rows segs)
]

merged-decoded :
    (segs : List Segment) → first_undecoded segs ≡ none → merged segs ≡ ok (merged_rows segs)
merged-decoded segs h = rw (merged, h) refl

merge_segments-sorted :
    (gone segs : List Segment)
    → sort_segs_by_id gone ≡ segs
    → first_undecoded segs ≡ none
    → merge_segments gone ≡ ok (merged_rows segs)
unfolding merge_segments
merge_segments-sorted gone segs sorted decoded = ap merged sorted ∙ merged-decoded segs decoded

-- The segments of both levels merge to the rows that the engine's segments merge to.
pub merge_segments-collected :
    (segs : List Segment) (ls : List ℕ)
    → HasLevels segs ls
    → Rising segs
    → All IsMergeable segs
    → merge_segments (collect_segments_by_level 0 segs ls ++ collect_segments_by_level 1 segs ls)
      ≡ ok (merged_rows segs)
merge_segments-collected segs ls levels rising mergeable =
    merge_segments-sorted
      (collect_segments_by_level 0 segs ls ++ collect_segments_by_level 1 segs ls) segs
      (sort-collected segs ls levels rising) (first_undecoded-none segs mergeable)

-- The segment that rows are built into.
abbrev pub segment_of : List ColumnMeta → ℕ → ScanEntry → List ScanEntry → Segment
segment_of cols id e es = record {
  id = id;
  min_key = e.key;
  max_key = last_key e es;
  rows = map (stamped_entry cols id) (e ∷ es);
  failure = none;
  readable = λ i. ltb i (length cols);
}

register_segment-fine :
    (sorter : SliceSort) (seg : SegmentMeta) (idx : List SegmentMeta)
    → (seg.id == 0) ≡ false
    → AtMost seg.min_key seg.max_key
    → (register_segment sorter seg idx).0 ≡ none
unfolding register_segment
register_segment-fine sorter seg idx h k =
    ground (arith, h, k, str_compare_swap seg.min_key seg.max_key)

pub next_id-positive : (n : ℕ) → n + 1 < 2 ^ 64 → ((n + 1) % 2 ^ 64 == 0) ≡ false
next_id-positive n h = ground (arith, h)

pub List-cases :
    (l : List Segment) → (l ≡ []) ⊎ ((s : Segment) × (segs : List Segment) × (l ≡ s ∷ segs))
List-cases [] = inl refl
List-cases (s ∷ segs) = inr (s, segs, refl)

-- Nothing goes wrong outside.
abbrev pub io_done : Io
io_done = record { bloom = none; write = none; cleanup = none }

module _ (t : MemTables) where
  add_registered-fine :
      (seg : Segment) (level : ℕ) (p : Option Primary.Error × List SegmentMeta) (e : Engine t)
      → p.0 ≡ none
      → add_registered t none seg level p e
        ≡ (none, record (with_segment t seg level e) { primary_index = p.1 })
  unfolding add_registered
  add_registered-fine seg level (none, idx) e h = refl
  add_registered-fine seg level (some x, idx) e h = absurd (cc (h))

  pub unregister_compacted-memory :
      (gone segs : List Segment) (e : Engine t)
      → ((unregister_compacted t gone segs e).active_mem ≡ e.active_mem)
        × ((unregister_compacted t gone segs e).immutable ≡ e.immutable)
  unfolding unregister_compacted
  unregister_compacted-memory gone [] e = (refl, refl)
  unregister_compacted-memory gone (s ∷ segs) e = elim (Bool-cases (is_compacted s.id gone)) [
    | inl leaves ↦ rw (leaves) (unregister_compacted-memory gone segs _)
    | inr stays ↦ rw (stays) (unregister_compacted-memory gone segs e)
  ]

  abbrev pub next_id : Engine t → ℕ
  next_id e = (e.last_segment_id + 1) % 2 ^ 64

  -- The engine with the new segment, before the others are taken out.
  abbrev pub added : SliceSort → Segment → Engine t → Engine t
  added sorter seg e = record (with_segment t seg 1 (record e { last_segment_id = next_id e })) {
    primary_index = (register_segment sorter (meta_of seg 1) e.primary_index).1;
  }

  pub compact_end-fine :
      (sorter : SliceSort) (cols : List ColumnMeta) (s : Segment) (segs : List Segment)
      (f : ScanEntry) (fs : List ScanEntry) (e : Engine t)
      → merge_segments (s ∷ segs) ≡ ok (f ∷ fs)
      → (next_id e == 0) ≡ false
      → AtMost f.key (last_key f fs)
      → compact_end t sorter io_done cols (s ∷ segs) e ≡ (
        none,
        remove_compacted_segments t (s ∷ segs) (added sorter (segment_of cols (next_id e) f fs) e),
      )
  unfolding compact_end compact_segments built build_segment replace_segments cleaned add_segment
  compact_end-fine sorter cols s segs f fs e merged id bounds =
      let seg = segment_of cols (next_id e) f fs in
      let e' : Engine t = record e { last_segment_id = next_id e } in
      rw
        (
          merged,
          add_registered-fine seg 1 (register_segment sorter (meta_of seg 1) e.primary_index) e'
              (register_segment-fine sorter (meta_of seg 1) e.primary_index id bounds),
        )
        refl
