-- ===== src/Storage/Lsm/Compaction/Rebuilt.antt =====
-- The columns that a compaction rebuilds (buildColumnEncoded of pkg/storage/compaction.go).
use mathlib.Core.Path.{ap₂}
use test_db.Prelude.{
  ℕ, suc, ◌+◌, ◌≡◌, refl, sym, ap, ◌∙◌, arith, true, false, Option, none, some, List, [], ◌∷◌, Str,
  str_eq, All, Bool-cases, inl, inr,
}
use test_db.Common.Types.{Value}
use test_db.Storage.Row.{Row, Columns, ColumnMeta, ScanEntry}
use test_db.Storage.Lsm.Merge.Sources.{row_of, or_else}
use test_db.Storage.Lsm.Segment.{Segment}
use test_db.Storage.Lsm.Engine.Scans.{newest_in, rows_of_segment}
use test_db.Storage.Lsm.Compaction.{value_of_column, build_column, build_columns}

-- The columns are those of the engine, in their order.
abbrev pub HasColumns : List ColumnMeta → Columns → Type 0
HasColumns [] [] = Unit
HasColumns [] (c ∷ cs) = false ≡ true
HasColumns (col ∷ cols) [] = false ≡ true
HasColumns (col ∷ cols) (c ∷ cs) = (c.0 ≡ col.name) × HasColumns cols cs

build_column-found :
    (i : ℕ) (col : ColumnMeta) (all : Columns) (c : Str × Value)
    → value_of_column i all ≡ some c.1
    → c.0 ≡ col.name
    → build_column i col all ≡ c
unfolding build_column
build_column-found i col all c h named = rw (build_column, h) (ap (λ n. (n, c.1)) (sym named))

build_columns-from :
    (i : ℕ) (all : Columns) (cols : List ColumnMeta) (cs : Columns)
    → ((j : ℕ) → value_of_column (i + j) all ≡ value_of_column j cs)
    → HasColumns cols cs
    → build_columns i cols all ≡ cs
unfolding build_columns value_of_column
build_columns-from i all [] [] at h = refl
build_columns-from i all [] (c ∷ cs) at h = absurd (cc (h))
build_columns-from i all (col ∷ cols) [] at h = absurd (cc (h))
build_columns-from i all (col ∷ cols) (c ∷ cs) at h =
    let first : i + 0 ≡ i = omega arith in
    ap₂ (λ x l. x ∷ l)
      (build_column-found i col all c (ap (λ n. value_of_column n all) (sym first) ∙ at 0) h.0)
      (build_columns-from (suc i) all cols cs
        (λ j.
          let next : suc i + j ≡ i + suc j = omega arith in
          ap (λ n. value_of_column n all) next ∙ at (suc j))
        h.1)

pub build_columns-same :
    (cols : List ColumnMeta) (cs : Columns) → HasColumns cols cs → build_columns 0 cols cs ≡ cs
build_columns-same cols cs h =
    build_columns-from 0 cs cols cs
      (λ j. let same : 0 + j ≡ j = omega arith in ap (λ n. value_of_column n cs) same) h

-- A row, if there is one, has the columns.
abbrev pub FoundHas : List ColumnMeta → Option Row → Type 0
FoundHas cols none = Unit
FoundHas cols (some r) = HasColumns cols r.columns

FoundHas-or_else :
    (cols : List ColumnMeta) (x y : Option Row)
    → FoundHas cols x
    → FoundHas cols y
    → FoundHas cols (or_else x y)
FoundHas-or_else cols none y h k = k
FoundHas-or_else cols (some r) y h k = h

row_of-FoundHas :
    (cols : List ColumnMeta) (j : Str) (es : List ScanEntry)
    → All (λ (e : ScanEntry). HasColumns cols e.value.columns) es
    → FoundHas cols (row_of j es)
unfolding row_of
row_of-FoundHas cols j [] h = tt
row_of-FoundHas cols j (e ∷ es) h = elim (Bool-cases (str_eq e.key j)) [
  | inl same ↦ rw (same) h.0
  | inr other ↦ rw (other) (row_of-FoundHas cols j es h.1)
]

pub newest_in-FoundHas :
    (cols : List ColumnMeta) (j : Str) (segs : List Segment)
    → All (λ (s : Segment). All (λ (e : ScanEntry). HasColumns cols e.value.columns) s.rows) segs
    → FoundHas cols (newest_in rows_of_segment j segs)
newest_in-FoundHas cols j [] h = tt
newest_in-FoundHas cols j (s ∷ segs) h =
    FoundHas-or_else cols (newest_in rows_of_segment j segs) (row_of j s.rows)
      (newest_in-FoundHas cols j segs h.1) (row_of-FoundHas cols j s.rows h.0)
