-- ===== src/Storage/Lsm/Engine/Reads.antt =====
-- Get finds the row that is visible under a key.
use mathlib.Core.List.{Perm, reverse_perm}
use mathlib.Core.List.Perm
use mathlib.Core.Path.{subst, ap₂}
use test_db.Prelude.{
  ℕ, zero, suc, ◌≡◌, refl, sym, ap, ◌∙◌, arith, Bool, true, false, Option, none, some, List, [],
  ◌∷◌, Str, str_eq, str_ltb, str_compare, str_compare_swap, filter-perm, map, All, AtMost,
  eq_of_str_eq, Bool-cases, inl, inr,
}
use test_db.Storage.Row.{Row, Columns, ScanEntry}
use test_db.Storage.Lsm.Merge.Sources.{row_of, or_else}
use test_db.Storage.Lsm.Merge.Kept.{live}
use test_db.Storage.Lsm.Segment.{Segment, find_row_by_key}
use test_db.Storage.Lsm.Segment.Lookup.{value_at, found_row, find_row_by_key-row_of}
use test_db.Index.Primary
use test_db.Index.Primary.{SegmentMeta, key_in_range, covers, lookup}
use test_db.Index.Primary.Sorted.{lookup-filter}
use test_db.Storage.Lsm.Engine.{MemTables, Engine, get_immutable, get}
use test_db.Storage.Lsm.PointReads.{
  find_segment_by_id, fetch_columns, row_at, get_from_found, get_from_segment, get_from_ids,
  get_from_segments,
}
use test_db.Storage.Lsm.Engine.Scans.{newest_in, or_else-none, IsWellFormed, rows_of_segment}
use test_db.Storage.Lsm.Engine.Visible.{visible}
use test_db.Storage.Lsm.Engine.Ids.{
  sort_ids-perm, Range, range_of, segment_range, hits, hits-ids, Rising, sort_ids-hits,
}

-- A row as a segment gives it.
abbrev pub stamped : ℕ → Row → Row
stamped id r = record { version = id; columns = r.columns; tombstone = false }

-- Every column of a row can be read, from the index `i` on.
abbrev pub AllReadable : (ℕ → Bool) → ℕ → Columns → Type 0
AllReadable readable i [] = Unit
AllReadable readable i (c ∷ cs) = (readable i ≡ true) × AllReadable readable (suc i) cs

fetch_columns-all :
    (readable : ℕ → Bool) (i : ℕ) (cs : Columns)
    → AllReadable readable i cs
    → fetch_columns readable i cs ≡ cs
unfolding fetch_columns
fetch_columns-all readable i [] h = refl
fetch_columns-all readable i (c ∷ cs) h =
    rw (h.0) (ap (λ l. c ∷ l) (fetch_columns-all readable (suc i) cs h.1))

-- A segment that Get comes to: the map has it, its filter has its keys, its rows bear its ID, and all
-- their columns can be read.
pub record IsReachable (may_contain : ℕ → Str → Bool) (map : List Segment) (s : Segment)
    : Type 0 where
  pub well_formed : IsWellFormed s
  pub found : find_segment_by_id s.id map ≡ some s
  pub passes : (key : Str) → may_contain s.id key ≡ false → row_of key s.rows ≡ none
  pub bears_id : All (λ (e : ScanEntry). e.value ≡ stamped s.id e.value) s.rows
  pub readable : All (λ (e : ScanEntry). AllReadable s.readable 0 e.value.columns) s.rows

row_at-value_at :
    (s : Segment) (es : List ScanEntry) (i : ℕ)
    → All (λ (e : ScanEntry). e.value ≡ stamped s.id e.value) es
    → All (λ (e : ScanEntry). AllReadable s.readable 0 e.value.columns) es
    → row_at s es i ≡ value_at es i
unfolding row_at value_at
row_at-value_at s [] i h q = refl
row_at-value_at s (e ∷ es) zero h q =
    ap (λ cs. some (record { version = s.id; columns = cs; tombstone = false }))
      (fetch_columns-all s.readable 0 e.value.columns q.0)
    ∙ ap (λ r. some r) (sym h.0)
row_at-value_at s (e ∷ es) (suc i) h q = row_at-value_at s es i h.1 q.1

found-value :
    (s : Segment) (o : Option ℕ)
    → All (λ (e : ScanEntry). e.value ≡ stamped s.id e.value) s.rows
    → All (λ (e : ScanEntry). AllReadable s.readable 0 e.value.columns) s.rows
    → (elim o [ none ↦ none | some i ↦ row_at s s.rows i ]) ≡ found_row s.rows o
found-value s none h q = refl
found-value s (some i) h q = row_at-value_at s s.rows i h q

get_from_segment-row_of :
    (may_contain : ℕ → Str → Bool) (segs : List Segment) (s : Segment) (key : Str)
    → IsReachable may_contain segs s
    → get_from_segment may_contain key segs s.id ≡ row_of key s.rows
unfolding get_from_segment get_from_found
get_from_segment-row_of may_contain segs s key r = elim (Bool-cases (may_contain s.id key)) [
  | inl passes ↦
      rw (passes, r.found)
        (found-value s (find_row_by_key key s.rows) r.bears_id r.readable
          ∙ find_row_by_key-row_of key s.rows r.well_formed.ascending)
  | inr stopped ↦ rw (stopped) (sym (r.passes key stopped))
]

nonempty : (a b : Str) → str_eq a b ≡ true → str_eq b [] ≡ false → str_eq a [] ≡ false
nonempty a b same named = subst (λ k. str_eq k [] ≡ false) (sym (eq_of_str_eq a b same)) named

past_empty : (k : Str) → str_eq k [] ≡ false → str_ltb [] k ≡ true
unfolding str_compare
past_empty [] h = absurd (cc (h))
past_empty (b ∷ k) h = refl

within_bounds :
    (k lo hi : Str) → str_eq k [] ≡ false → AtMost lo k → AtMost k hi → key_in_range k lo hi ≡ true
unfolding key_in_range
within_bounds k lo hi named low high = elim (Bool-cases (str_eq hi [])) [
  | inl empty ↦ absurd (
      cc (
        subst (λ h. str_ltb h k ≡ true) (sym (eq_of_str_eq hi [] empty)) (past_empty k named),
        high,
      ))
  | inr bound ↦ ground (arith, bound, low, high, str_compare_swap lo k, str_compare_swap k hi)
]

-- A key that is not empty lies in the range of a segment that has it.
covered :
    (key lo hi : Str) (es : List ScanEntry)
    → str_eq key [] ≡ false
    → key_in_range key lo hi ≡ false
    → All (λ (e : ScanEntry). (AtMost lo e.key) × (AtMost e.key hi)) es
    → row_of key es ≡ none
unfolding row_of key_in_range
covered key lo hi [] named away b = refl
covered key lo hi (e ∷ es) named away b = elim (Bool-cases (str_eq e.key key)) [
  | inl same ↦ absurd (
      cc (
        subst (λ k. key_in_range k lo hi ≡ true) (eq_of_str_eq e.key key same)
            (within_bounds e.key lo hi (nonempty e.key key same named) b.0.0 b.0.1),
        away,
      ))
  | inr other ↦ rw (other) (covered key lo hi es named away b.1)
]

newest_in-ids :
    (may_contain : ℕ → Str → Bool) (map' segs : List Segment) (key : Str)
    → str_eq key [] ≡ false
    → All (IsReachable may_contain map') segs
    → get_from_ids may_contain key map' (hits key (map segment_range segs))
      ≡ newest_in rows_of_segment key segs
unfolding get_from_ids
newest_in-ids may_contain map' [] key named h = refl
newest_in-ids may_contain map' (s ∷ segs) key named h =
    elim (Bool-cases (key_in_range key s.min_key s.max_key)) [
      | inl near ↦ rw (near) (
          ap₂ or_else (newest_in-ids may_contain map' segs key named h.1)
            (get_from_segment-row_of may_contain map' s key h.0))
      | inr away ↦ rw (away) (
          newest_in-ids may_contain map' segs key named h.1
          ∙ or_else-none (newest_in rows_of_segment key segs)
          ∙ ap (or_else (newest_in rows_of_segment key segs))
              (sym (covered key s.min_key s.max_key s.rows named away h.0.well_formed.bounded)))
    ]

-- The segments are in the map and behind their filters, their IDs rise, and the primary index has
-- their ranges.
pub record IsConsistent (may_contain : ℕ → Str → Bool) (segs map' : List Segment)
    (idx : List SegmentMeta) : Type 0 where
  pub reachable : All (IsReachable may_contain map') segs
  pub rising : Rising segs
  pub registered : Perm (map range_of idx) (map segment_range segs)
  pub ascending : Primary.IsAscending idx

hits-perm_ranges : (key : Str) {rs qs : List Range} → Perm rs qs → Perm (hits key rs) (hits key qs)
hits-perm_ranges key p =
    Perm.map (λ (r : Range). r.0) (filter-perm (λ (r : Range). key_in_range key r.1 r.2) p)

get_from_segments-newest :
    (may_contain : ℕ → Str → Bool) (segs map' : List Segment) (idx : List SegmentMeta) (key : Str)
    → str_eq key [] ≡ false
    → IsConsistent may_contain segs map' idx
    → get_from_segments may_contain key map' idx ≡ newest_in rows_of_segment key segs
unfolding get_from_segments
get_from_segments-newest may_contain segs map' idx key named c =
    let looked : Perm (lookup key idx) (hits key (map range_of idx)) =
      rw (lookup-filter key idx c.ascending, hits-ids key idx)
        (reverse_perm (hits key (map range_of idx))) in
    let sorted =
      sort_ids-perm (Perm.trans looked (hits-perm_ranges key c.registered))
      ∙ sort_ids-hits key segs c.rising in
    ap (get_from_ids may_contain key map') sorted
    ∙ newest_in-ids may_contain map' segs key named c.reachable

get_immutable-newest_in :
    (t : MemTables) (key : Str) (ms : List t.State)
    → get_immutable t key ms ≡ newest_in t.entries key ms
unfolding get_immutable
get_immutable-newest_in t key [] = refl
get_immutable-newest_in t key (m ∷ ms) =
    ap₂ or_else (get_immutable-newest_in t key ms) (t.get-row_of key m)

-- Over memtables that keep the laws of MemTables, as those of memtable.go do
-- (Storage/Lsm/SkipLists/Tables), where the primary index lists the key range of every segment in its
-- order, the map of segments has each under its ID, the Bloom filters let every key of their segment
-- pass, the IDs of the segments rise in their order, and each segment has strictly rising keys within
-- its bounds, decodes, has rows that bear its ID, and all the engine's columns can be read from it: Get
-- returns under a key that is not empty the row that is visible to a scan, and nothing if there is none
-- or it is deleted.
pub get-visible :
    (t : MemTables) (may_contain : ℕ → Str → Bool) (e : Engine t) (key : Str)
    → str_eq key [] ≡ false
    → IsConsistent may_contain e.segments e.segment_map e.primary_index
    → get t may_contain key e ≡ visible t e key
unfolding get
get-visible t may_contain e key named c = ap live (
    ap₂ or_else (t.get-row_of key e.active_mem) (
      ap₂ or_else (get_immutable-newest_in t key e.immutable) (
        get_from_segments-newest may_contain e.segments e.segment_map e.primary_index key named c)))
