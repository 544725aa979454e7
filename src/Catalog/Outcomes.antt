-- ===== src/Catalog/Outcomes.antt =====
-- What each change of a catalog comes to.
use mathlib.Core.Path.{subst}
use test_db.Prelude.{
  ℕ, ◌≡◌, refl, sym, true, Option, none, some, List, [], ◌∷◌, ◌++◌, arith, Str, take, drop, suc,
  Bool-cases, Option-cases, ◌⊎◌, inl, inr, Dict, find, put, erase,
}
use test_db.Catalog.Schema.{
  ColumnDef, TableOptions, SegmentRef, Table, Catalog, has_column, missing_key, listed, has_segment,
  column_index, without_segment,
}
use test_db.Catalog.Changes.{
  Save, Error, commit, with_columns, with_segments, schema_error, new_table, create_table,
  drop_table, add_column, drop_column, register_segment, unregister_segment, table_exists,
  table_not_exist, column_exists, column_not_exist, cannot_drop_primary_key, segment_exists,
  segment_not_found,
}
use test_db.Catalog.Shape.{
  KeysAreColumns, HasKey, IsTable, IsWellFormed, find-IsTable, put-IsWellFormed, erase-IsWellFormed,
  cut_column_lem,
}
use test_db.Catalog.Parts.{
  KeysAreColumns-append, KeysAreColumns-without, KeysAreColumns-missing, DistinctIds-append,
  DistinctIds-without,
}

-- What comes of a change: it is refused and the catalog is left alone, or it commits tables that
-- are well formed if those before were.
abbrev pub Comes : Save → Catalog → Option Error × Catalog → Type 0
Comes save c r =
    ((e : Error) × (r ≡ (some e, c)))
    ⊎ ((tables : Dict Table) × (IsWellFormed c.db.tables → IsWellFormed tables)
        × (r ≡ commit save tables c))

schema_error-KeysAreColumns :
    (cols : List ColumnDef) (key : List Str)
    → schema_error cols key ≡ none
    → HasKey key × KeysAreColumns key cols
unfolding schema_error
schema_error-KeysAreColumns [] key h = cc
schema_error-KeysAreColumns (col ∷ cols) [] h = cc
schema_error-KeysAreColumns (col ∷ cols) (k ∷ ks) h = (
  tt,
  KeysAreColumns-missing (k ∷ ks) (col ∷ cols)
      (ground (arith, Option-cases (missing_key (k ∷ ks) (col ∷ cols)), h)),
)

new_table-IsTable :
    (now : ℕ) (name : Str) (cols : List ColumnDef) (key : List Str) (opts : TableOptions)
    → HasKey key × KeysAreColumns key cols
    → IsTable name (new_table now name cols key opts)
unfolding new_table
new_table-IsTable now name cols key opts h = (refl, h.0, h.1, tt)

pub create_table-Comes :
    (save : Save) (now : ℕ) (name : Str) (cols : List ColumnDef) (key : List Str)
    (opts : TableOptions) (c : Catalog)
    → Comes save c (create_table save now name cols key opts c)
unfolding create_table
create_table-Comes save now name cols key opts c = elim (Option-cases (find name c.db.tables)) [
  | inr (t, there) ↦ inl (table_exists name, ground (arith, there))
  | inl free ↦ elim (Option-cases (schema_error cols key)) [
    | inr (e, bad) ↦ inl (e, ground (arith, free, bad))
    | inl good ↦
        let table = new_table now name cols key opts in
        let parts = schema_error-KeysAreColumns cols key good in
        inr (
          put name table c.db.tables,
          put-IsWellFormed name table c.db.tables (new_table-IsTable now name cols key opts parts),
          ground (arith, free, good),
        )
  ]
]

pub drop_table-Comes :
    (save : Save) (name : Str) (c : Catalog) → Comes save c (drop_table save name c)
unfolding drop_table
drop_table-Comes save name c = elim (Option-cases (find name c.db.tables)) [
  | inl none_here ↦ inl (table_not_exist, ground (arith, none_here))
  | inr (t, there) ↦
      inr (erase name c.db.tables, erase-IsWellFormed name c.db.tables, ground (arith, there))
]

pub add_column-Comes :
    (save : Save) (table column : Str) (def : ColumnDef) (c : Catalog)
    → Comes save c (add_column save table column def c)
unfolding add_column
add_column-Comes save table column def c = elim (Option-cases (find table c.db.tables)) [
  | inl gone ↦ inl (table_not_exist, ground (arith, gone))
  | inr (t, there) ↦ elim (Bool-cases (has_column column t.columns)) [
    | inl taken ↦ inl (column_exists column, ground (arith, there, taken))
    | inr free ↦ inr (
      put table (with_columns (t.columns ++ record def { nullable = true } ∷ []) t) c.db.tables,
      (λ h.
          let was = find-IsTable table c.db.tables t h there in
          put-IsWellFormed table (with_columns (t.columns ++ record def { nullable = true } ∷ []) t)
            c.db.tables (was.0, was.1, KeysAreColumns-append t.primary_key t.columns _ was.2, was.3)
            h),
      ground (arith, there, free),
    )
  ]
]

pub drop_column-Comes :
    (save : Save) (table column : Str) (c : Catalog)
    → Comes save c (drop_column save table column c)
unfolding drop_column
drop_column-Comes save table column c = elim (Option-cases (find table c.db.tables)) [
  | inl gone ↦ inl (table_not_exist, ground (arith, gone))
  | inr (t, there) ↦ elim (Option-cases (column_index column 0 t.columns)) [
    | inl missing ↦ inl (column_not_exist, ground (arith, there, missing))
    | inr (n, at) ↦ elim (Bool-cases (listed column t.primary_key)) [
      | inl key ↦ inl (cannot_drop_primary_key column, ground (arith, there, at, key))
      | inr plain ↦ inr (
        put table (with_columns (take n t.columns ++ drop (suc n) t.columns) t) c.db.tables,
        (λ h.
            let was = find-IsTable table c.db.tables t h there in
            put-IsWellFormed table (with_columns (take n t.columns ++ drop (suc n) t.columns) t)
              c.db.tables
              (
                was.0,
                was.1,
                subst (KeysAreColumns t.primary_key) (sym (cut_column_lem column n t.columns at))
                    (KeysAreColumns-without column t.primary_key t.columns plain was.2),
                was.3,
              )
              h),
        ground (arith, there, at, plain),
      )
    ]
  ]
]

pub register_segment-Comes :
    (save : Save) (table : Str) (seg : SegmentRef) (c : Catalog)
    → Comes save c (register_segment save table seg c)
unfolding register_segment
register_segment-Comes save table seg c = elim (Option-cases (find table c.db.tables)) [
  | inl gone ↦ inl (table_not_exist, ground (arith, gone))
  | inr (t, there) ↦ elim (Bool-cases (has_segment seg.id t.segment_list)) [
    | inl taken ↦ inl (segment_exists seg.id, ground (arith, there, taken))
    | inr free ↦ inr (
      put table (with_segments (t.segment_list ++ seg ∷ []) t) c.db.tables,
      (λ h.
          let was = find-IsTable table c.db.tables t h there in
          put-IsWellFormed table (with_segments (t.segment_list ++ seg ∷ []) t) c.db.tables
            (was.0, was.1, was.2, DistinctIds-append t.segment_list seg was.3 free) h),
      ground (arith, there, free),
    )
  ]
]

pub unregister_segment-Comes :
    (save : Save) (table : Str) (id : ℕ) (c : Catalog)
    → Comes save c (unregister_segment save table id c)
unfolding unregister_segment
unregister_segment-Comes save table id c = elim (Option-cases (find table c.db.tables)) [
  | inl gone ↦ inl (table_not_exist, ground (arith, gone))
  | inr (t, there) ↦ elim (Option-cases (without_segment id t.segment_list)) [
    | inl missing ↦ inl (segment_not_found id, ground (arith, there, missing))
    | inr (rest, left) ↦ inr (
      put table (with_segments rest t) c.db.tables,
      (λ h.
          let was = find-IsTable table c.db.tables t h there in
          put-IsWellFormed table (with_segments rest t) c.db.tables
            (was.0, was.1, was.2, DistinctIds-without id t.segment_list rest left was.3) h),
      ground (arith, there, left),
    )
  ]
]
