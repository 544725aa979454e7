-- ===== src/Storage/Lsm/Compaction/Merged.antt =====
-- The rows that a compaction merges its segments into.
use mathlib.Core.Path.{subst}
use test_db.Prelude.{
  ℕ, ◌≡◌, refl, sym, ap, ◌∙◌, arith, true, false, Option, none, some, List, [], ◌∷◌, Str, str_ltb,
  str_eq, Bool-cases, inl, inr, str_eq_refl, AtMost, AtMost-trans, AtMost-refl, AtMost-below, map,
  All,
}
use test_db.Storage.Row.{Row, ColumnMeta, ScanEntry}
use test_db.Storage.Lsm.Merge.{entries_ahead}
use test_db.Storage.Lsm.Merge.Sources.{
  Above, IsAscending, AllAscending, AllAbove, AllAbove-AllAtLeast, row_of, or_else, newest,
}
use test_db.Storage.Lsm.Merge.Kept.{live, IsScanFrom}
use test_db.Storage.Lsm.Segment.{Segment}
use test_db.Storage.Lsm.Engine.Scans.{newest_in, IsWellFormed, rows_of_segment}
use test_db.Storage.Lsm.Engine.Reads.{stamped}
use test_db.Storage.Lsm.Compaction.{
  reader, first_undecoded, merge_loop, build_columns, stamped_entry, last_key,
}
use test_db.Storage.Lsm.Compaction.Merging.{AllAlive, merge_loop-IsScanFrom}

-- A segment as Flush and Compact leave it: it has rows, whose keys are not empty and which bear its ID.
pub record IsMergeable (s : Segment) : Type 0 where
  pub well_formed : IsWellFormed s
  pub bears_id : All (λ (e : ScanEntry). e.value ≡ stamped s.id e.value) s.rows
  pub named : Above [] s.rows
  pub filled : (e : ScanEntry) × (es : List ScanEntry) × (s.rows ≡ e ∷ es)

alive :
    (id : ℕ) (es : List ScanEntry)
    → All (λ (e : ScanEntry). e.value ≡ stamped id e.value) es
    → All (λ (e : ScanEntry). e.value.tombstone ≡ false) es
alive id [] h = tt
alive id (e ∷ es) h = (ap (λ (r : Row). r.tombstone) h.0, alive id es h.1)

readers-AllAscending : (segs : List Segment) → All IsMergeable segs → AllAscending (map reader segs)
readers-AllAscending [] h = tt
readers-AllAscending (s ∷ segs) h = (h.0.well_formed.ascending, readers-AllAscending segs h.1)

readers-AllAbove : (segs : List Segment) → All IsMergeable segs → AllAbove [] (map reader segs)
readers-AllAbove [] h = tt
readers-AllAbove (s ∷ segs) h = (h.0.named, readers-AllAbove segs h.1)

readers-AllAlive : (segs : List Segment) → All IsMergeable segs → AllAlive (map reader segs)
readers-AllAlive [] h = tt
readers-AllAlive (s ∷ segs) h = (alive s.id s.rows h.0.bears_id, readers-AllAlive segs h.1)

newest-readers :
    (j : Str) (segs : List Segment) → newest j (map reader segs) ≡ newest_in rows_of_segment j segs
unfolding newest
newest-readers j [] = refl
newest-readers j (s ∷ segs) = ap (λ o. or_else o (row_of j s.rows)) (newest-readers j segs)

pub first_undecoded-none :
    (segs : List Segment) → All IsMergeable segs → first_undecoded segs ≡ none
unfolding first_undecoded
first_undecoded-none [] h = refl
first_undecoded-none (s ∷ segs) h =
    let (e, es, rows) = h.0.filled in
    rw (rows, h.0.well_formed.decodes) (first_undecoded-none segs h.1)

row_of-alive :
    (j : Str) (es : List ScanEntry)
    → All (λ (e : ScanEntry). e.value.tombstone ≡ false) es
    → live (row_of j es) ≡ row_of j es
unfolding row_of
row_of-alive j [] h = refl
row_of-alive j (e ∷ es) h = ground (arith, h.0, row_of-alive j es h.1)

live-or_else : (x y : Option Row) → live x ≡ x → live y ≡ y → live (or_else x y) ≡ or_else x y
live-or_else none y h k = k
live-or_else (some r) y h k = h

pub newest_in-alive :
    (j : Str) (segs : List Segment)
    → All IsMergeable segs
    → live (newest_in rows_of_segment j segs) ≡ newest_in rows_of_segment j segs
newest_in-alive j [] h = refl
newest_in-alive j (s ∷ segs) h =
    live-or_else (newest_in rows_of_segment j segs) (row_of j s.rows) (newest_in-alive j segs h.1)
      (row_of-alive j s.rows (alive s.id s.rows h.0.bears_id))

-- The rows that the segments are merged into.
abbrev pub merged_rows : List Segment → List ScanEntry
merged_rows segs = merge_loop (entries_ahead (map reader segs)) (map reader segs) []

pub merged-IsScanFrom :
    (segs : List Segment)
    → All IsMergeable segs
    → IsScanFrom [] (map reader segs) (merged_rows segs)
merged-IsScanFrom segs h =
    merge_loop-IsScanFrom (entries_ahead (map reader segs)) [] (map reader segs)
      (readers-AllAscending segs h)
      (AllAbove-AllAtLeast [] (map reader segs) (readers-AllAbove segs h)) (readers-AllAlive segs h)
      (omega arith)

-- Merging keeps, for every key that is not empty, the row of the newest segment that has it.
pub row_of-merged :
    (j : Str) (segs : List Segment)
    → All IsMergeable segs
    → str_ltb [] j ≡ true
    → row_of j (merged_rows segs) ≡ newest_in rows_of_segment j segs
row_of-merged j segs h named =
    (merged-IsScanFrom segs h).rows j named
    ∙ ap live (newest-readers j segs)
    ∙ newest_in-alive j segs h

abbrev pub restamp : List ColumnMeta → ℕ → Option Row → Option Row
restamp cols id none = none
restamp cols id (some r) = some (stamped id (record r { columns = build_columns 0 cols r.columns }))

pub row_of-stamped :
    (j : Str) (cols : List ColumnMeta) (id : ℕ) (es : List ScanEntry)
    → row_of j (map (stamped_entry cols id) es) ≡ restamp cols id (row_of j es)
unfolding row_of
row_of-stamped j cols id [] = refl
row_of-stamped j cols id (e ∷ es) = elim (Bool-cases (str_eq e.key j)) [
  | inl same ↦ rw (same) refl
  | inr other ↦ rw (other) (row_of-stamped j cols id es)
]

pub last_key-AtMost :
    (e : ScanEntry) (es : List ScanEntry) → IsAscending (e ∷ es) → AtMost e.key (last_key e es)
unfolding last_key
last_key-AtMost e [] a = AtMost-refl e.key
last_key-AtMost e (f ∷ es) a =
    AtMost-trans e.key f.key (last_key f es) (AtMost-below e.key f.key a.0.0)
      (last_key-AtMost f es a.1)

no_row : (x : Option Row) (r : Row) → or_else x (some r) ≡ none → ⊥
no_row none r h = cc (h)
no_row (some q) r h = cc (h)

has_rows :
    (k : Str) (m : List ScanEntry) (x : Option Row) (r : Row)
    → row_of k m ≡ or_else x (some r)
    → (e : ScanEntry) × (es : List ScanEntry) × (m ≡ e ∷ es)
unfolding row_of
has_rows k [] x r h = absurd (no_row x r (sym h))
has_rows k (e ∷ es) x r h = (e, es, refl)

row_of-first : (f : ScanEntry) (fs : List ScanEntry) → row_of f.key (f ∷ fs) ≡ some f.value
unfolding row_of
row_of-first f fs = rw (str_eq_refl f.key) refl

-- The merged rows of segments that have rows are some.
pub merged-some :
    (s : Segment) (segs : List Segment)
    → All IsMergeable (s ∷ segs)
    → (e : ScanEntry) × (es : List ScanEntry) × (merged_rows (s ∷ segs) ≡ e ∷ es)
merged-some s segs h =
    let (f, fs, rows) = h.0.filled in
    let older = newest_in rows_of_segment f.key segs in
    has_rows f.key (merged_rows (s ∷ segs)) older f.value (
      row_of-merged f.key (s ∷ segs) h (subst (Above []) rows h.0.named).0
      ∙ ap (λ l. or_else older (row_of f.key l)) rows
      ∙ ap (or_else older) (row_of-first f fs))
