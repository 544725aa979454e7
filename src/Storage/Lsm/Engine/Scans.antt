-- ===== src/Storage/Lsm/Engine/Scans.antt =====
-- What a scan of the engine returns, in terms of the rows of its memtables and segments.
use mathlib.Core.Path.{subst}
use test_db.Prelude.{
  ◌≡◌, refl, ap, ◌∙◌, arith, Bool, true, not, ◌&&◌, ◌||◌, Option, none, some, List, [], ◌∷◌, ◌++◌,
  Str, str_eq, str_ltb, str_leb, if◌then◌else◌, filter, map, All, eq_of_str_eq, str_ltb_cotrans,
  str_compare_swap, AtMost, below-AtMost, Bool-cases, inl, inr,
}
use test_db.Storage.Row.{Row, ScanEntry}
use test_db.Storage.Lsm.Merge.{Source}
use test_db.Storage.Lsm.Merge.Sources.{Above, IsAscending, row_of, or_else, newest}
use test_db.Storage.Lsm.Segment.{Segment, segment_iterator}
use test_db.Storage.Lsm.Segment.Ranges.{in_range, segment_iterator-filter}
use test_db.Storage.Lsm.Engine.{MemTables, outside, mem_table_iterator}

-- start <= key <= end
abbrev pub key_in : Str → Str → Str → Bool
key_in start end key = not (str_ltb end key) && str_leb start key

Above-filter :
    (k : Str) (p : ScanEntry → Bool) (es : List ScanEntry) → Above k es → Above k (filter p es)
Above-filter k p [] h = tt
Above-filter k p (e ∷ es) h = elim (Bool-cases (p e)) [
  | inl t ↦ rw (t) (h.0, Above-filter k p es h.1)
  | inr f ↦ rw (f) (Above-filter k p es h.1)
]

pub IsAscending-filter :
    (p : ScanEntry → Bool) (es : List ScanEntry) → IsAscending es → IsAscending (filter p es)
IsAscending-filter p [] a = tt
IsAscending-filter p (e ∷ es) a = elim (Bool-cases (p e)) [
  | inl t ↦ rw (t) (Above-filter e.key p es a.0, IsAscending-filter p es a.1)
  | inr f ↦ rw (f) (IsAscending-filter p es a.1)
]

row_of-filter :
    (start end j : Str) (es : List ScanEntry)
    → row_of j (filter (in_range start end) es) ≡ (if key_in start end j then row_of j es else none)
unfolding row_of
row_of-filter start end j [] = ground arith
row_of-filter start end j (e ∷ es) = elim (Bool-cases (str_eq e.key j)) [
  | inl same ↦
      ground (
        arith,
        same,
        row_of-filter start end j es,
        ap (key_in start end) (eq_of_str_eq e.key j same),
      )
  | inr other ↦ ground (arith, other, row_of-filter start end j es)
]

pub or_else-none : (x : Option Row) → x ≡ or_else x none
or_else-none none = refl
or_else-none (some r) = refl

pub or_else_assoc : (x y z : Option Row) → or_else (or_else x y) z ≡ or_else x (or_else y z)
or_else_assoc none y z = refl
or_else_assoc (some r) y z = refl

pub newest-append :
    (j : Str) (ss ts : List Source) → newest j (ss ++ ts) ≡ or_else (newest j ts) (newest j ss)
unfolding newest
newest-append j [] ts = or_else-none (newest j ts)
newest-append j (s ∷ ss) ts =
    ap (λ o. or_else o (row_of j s.ahead)) (newest-append j ss ts)
    ∙ or_else_assoc (newest j ts) (newest j ss) (row_of j s.ahead)

module _ {A : Type 0} (rows : A → List ScanEntry) where
  -- The row of the last of several stores that has the key.
  abbrev pub newest_in : Str → List A → Option Row
  newest_in j [] = none
  newest_in j (x ∷ xs) = or_else (newest_in j xs) (row_of j (rows x))

-- A segment's keys rise strictly and lie between its bounds, and its columns decode.
pub record IsWellFormed (seg : Segment) : Type 0 where
  pub ascending : IsAscending seg.rows
  pub bounded :
      All (λ (e : ScanEntry). (AtMost seg.min_key e.key) × (AtMost e.key seg.max_key)) seg.rows
  pub decodes : seg.failure ≡ none

abbrev pub rows_of_segment : Segment → List ScanEntry
rows_of_segment seg = seg.rows

-- No key of the range lies between bounds that lie outside it.
no_key_outside :
    (start end j lo hi : Str)
    → (str_ltb end lo || str_ltb hi start) ≡ true
    → key_in start end j ≡ true
    → AtMost lo j
    → AtMost j hi
    → ⊥
no_key_outside start end j lo hi h k low high = ground (
  arith,
  h,
  k,
  low,
  high,
  below-AtMost end lo j,
  str_ltb_cotrans hi j start,
  str_compare_swap start j,
)

outside-none :
    (start end j lo hi : Str) (es : List ScanEntry)
    → (str_ltb end lo || str_ltb hi start) ≡ true
    → key_in start end j ≡ true
    → All (λ (e : ScanEntry). (AtMost lo e.key) × (AtMost e.key hi)) es
    → row_of j es ≡ none
unfolding row_of
outside-none start end j lo hi [] h k b = refl
outside-none start end j lo hi (e ∷ es) h k b = elim (Bool-cases (str_eq e.key j)) [
  | inl same ↦ absurd (
      no_key_outside start end j lo hi h k (subst (AtMost lo) (eq_of_str_eq e.key j same) b.0.0)
        (subst (λ x. AtMost x hi) (eq_of_str_eq e.key j same) b.0.1))
  | inr other ↦ rw (other) (outside-none start end j lo hi es h k b.1)
]

-- In the range a scan's source has the rows that its store has, and outside it none.
unfoldable pub within : Str → Str → Str → Option Row → Option Row
within start end j r = if key_in start end j then r else none

pub within-or_else :
    (start end j : Str) (x y : Option Row)
    → or_else (within start end j x) (within start end j y) ≡ within start end j (or_else x y)
unfolding within
within-or_else start end j x y = ground arith

within-none : (start end j : Str) → none ≡ within start end j none
unfolding within
within-none start end j = ground arith

module _ (start end j : Str) where
  skipped_none :
      (s : Segment) (segs : List Segment)
      → IsWellFormed s
      → outside start end s ≡ true
      → within start end j (newest_in rows_of_segment j segs)
        ≡ within start end j (or_else (newest_in rows_of_segment j segs) (row_of j s.rows))
  unfolding within
  skipped_none s segs w away = elim (Bool-cases (key_in start end j)) [
    | inl inside ↦ rw (inside) (
        rw (outside-none start end j s.min_key s.max_key s.rows away inside w.bounded)
          (or_else-none (newest_in rows_of_segment j segs)))
    | inr beyond ↦ rw (beyond) refl
  ]

  segment-row :
      (s : Segment)
      → IsWellFormed s
      → row_of j (segment_iterator start end s).ahead ≡ within start end j (row_of j s.rows)
  unfolding within
  segment-row s w =
      ap (λ (x : Source). row_of j x.ahead)
        (segment_iterator-filter start end s w.ascending w.decodes)
      ∙ row_of-filter start end j s.rows

  pub newest-segments :
      (segs : List Segment)
      → All IsWellFormed segs
      → newest j (map (segment_iterator start end) (filter (λ s. not (outside start end s)) segs))
        ≡ within start end j (newest_in rows_of_segment j segs)
  unfolding newest
  newest-segments [] w = within-none start end j
  newest-segments (s ∷ segs) w = elim (Bool-cases (outside start end s)) [
    | inl away ↦ rw (away) (newest-segments segs w.1 ∙ skipped_none s segs w.0 away)
    | inr near ↦ rw (near) (
        ap (λ o. or_else o (row_of j (segment_iterator start end s).ahead))
          (newest-segments segs w.1)
        ∙ ap (or_else (within start end j (newest_in rows_of_segment j segs))) (segment-row s w.0)
        ∙ within-or_else start end j (newest_in rows_of_segment j segs) (row_of j s.rows))
  ]

  pub newest-tables :
      (t : MemTables) (ms : List t.State)
      → newest j (map (mem_table_iterator t start end) ms)
        ≡ within start end j (newest_in t.entries j ms)
  unfolding newest mem_table_iterator within
  newest-tables t [] = within-none start end j
  newest-tables t (m ∷ ms) =
      ap (λ o. or_else o (row_of j (t.scan start end m))) (newest-tables t ms)
      ∙ ap (or_else (within start end j (newest_in t.entries j ms)))
          (ap (row_of j) (t.scan-filter start end m) ∙ row_of-filter start end j (t.entries m))
      ∙ within-or_else start end j (newest_in t.entries j ms) (row_of j (t.entries m))
