-- ===== src/Catalog/Contract.antt =====
-- What the changes of a catalog promise.
use mathlib.Core.Path.{subst}
use test_db.Prelude.{
  ℕ, ◌+◌, ◌%◌, ◌^◌, ◌≡◌, ◌≢◌, refl, sym, ap, ◌∙◌, true, false, Option, none, some, List, [], ◌∷◌,
  ◌++◌, arith, Str, str_eq, take, drop, suc, ◌⊎◌, inl, inr, Dict, put, find-put, find-put_other,
}
use test_db.Catalog.Schema.{
  ColumnDef, TableOptions, SegmentRef, Table, Catalog, is_some, has_column, listed, column_index,
}
use test_db.Catalog.Changes.{
  Save, Error, commit, persist, schema_error, new_table, with_columns, create_table, drop_table,
  add_column, drop_column, register_segment, unregister_segment, get_table,
}
use test_db.Catalog.Shape.{IsWellFormed, cut_column_lem, without_column-append, has_column-last}
use test_db.Catalog.Outcomes.{
  Comes, create_table-Comes, drop_table-Comes, add_column-Comes, drop_column-Comes,
  register_segment-Comes, unregister_segment-Comes,
}

-- Every change.
pub data Op : Type 0 where
  do_create_table : ℕ → Str → List ColumnDef → List Str → TableOptions → Op
  do_drop_table : Str → Op
  do_add_column : Str → Str → ColumnDef → Op
  do_drop_column : Str → Str → Op
  do_register_segment : Str → SegmentRef → Op
  do_unregister_segment : Str → ℕ → Op

abbrev pub apply : Save → Op → Catalog → Option Error × Catalog
apply save (do_create_table now name cols key opts) c = create_table save now name cols key opts c
apply save (do_drop_table name) c = drop_table save name c
apply save (do_add_column table column def) c = add_column save table column def c
apply save (do_drop_column table column) c = drop_column save table column c
apply save (do_register_segment table seg) c = register_segment save table seg c
apply save (do_unregister_segment table id) c = unregister_segment save table id c

abbrev pub run : Save → List Op → Catalog → Catalog
run save [] c = c
run save (op ∷ ops) c = run save ops (apply save op c).1

apply-Comes : (save : Save) (op : Op) (c : Catalog) → Comes save c (apply save op c)
apply-Comes save (do_create_table now name cols key opts) c =
    create_table-Comes save now name cols key opts c
apply-Comes save (do_drop_table name) c = drop_table-Comes save name c
apply-Comes save (do_add_column table column def) c = add_column-Comes save table column def c
apply-Comes save (do_drop_column table column) c = drop_column-Comes save table column c
apply-Comes save (do_register_segment table seg) c = register_segment-Comes save table seg c
apply-Comes save (do_unregister_segment table id) c = unregister_segment-Comes save table id c

apply-IsWellFormed :
    (save : Save) (op : Op) (c : Catalog)
    → IsWellFormed c.db.tables
    → IsWellFormed (apply save op c).1.db.tables
apply-IsWellFormed save op c h = elim (apply-Comes save op c) [
  | inl (e, same) ↦ subst (λ r. IsWellFormed r.1.db.tables) (sym same) h
  | inr (tables, keeps, made) ↦
      subst (λ r. IsWellFormed r.1.db.tables) (sym made) (unfold commit in keeps h)
]

-- Whatever changes run, refused or not and saved or not, every table keeps its name, a primary key
-- of at least one column, all of whose columns it has, and segments with distinct IDs.
pub run-IsWellFormed :
    (save : Save) (ops : List Op) (c : Catalog)
    → IsWellFormed c.db.tables
    → IsWellFormed (run save ops c).db.tables
run-IsWellFormed save [] c h = h
run-IsWellFormed save (op ∷ ops) c h =
    run-IsWellFormed save ops (apply save op c).1 (apply-IsWellFormed save op c h)

commit_lem :
    (save : Save) (tables : Dict Table) (c : Catalog)
    → ((commit save tables c).1.db.version ≡ (c.db.version + 1) % 2 ^ 64)
      × ((commit save tables c).0 ≡ persist save (commit save tables c).1)
unfolding commit
commit_lem save tables c = (refl, refl)

-- A change either is refused with an error and leaves the catalog alone, or it raises the version of
-- the database by one (on 64 bits) and reports what saving the new catalog reports: when saving
-- fails the caller gets an error, but the catalog in memory stays changed.
pub apply-version :
    (save : Save) (op : Op) (c : Catalog)
    → (((apply save op c).0 ≢ none) × ((apply save op c).1 ≡ c))
      ⊎ (((apply save op c).1.db.version ≡ (c.db.version + 1) % 2 ^ 64)
          × ((apply save op c).0 ≡ persist save (apply save op c).1))
apply-version save op c = elim (apply-Comes save op c) [
  | inl (e, same) ↦ inl ((λ h. ground (arith, h, same)), ap (λ r. r.1) same)
  | inr (tables, keeps, made) ↦ inr (
    ap (λ r. r.1.db.version) made ∙ (commit_lem save tables c).0,
    ap (λ r. r.0) made ∙ (commit_lem save tables c).1 ∙ ap (λ r. persist save (r.1)) (sym made),
  )
]

-- Under a free name, and with a schema that is not refused, a new table is found as it was given,
-- saved or not, and every other table as before.
pub get_table-create_table :
    (save : Save) (now : ℕ) (name : Str) (cols : List ColumnDef) (key : List Str)
    (opts : TableOptions) (c : Catalog)
    → get_table name c ≡ none
    → schema_error cols key ≡ none
    → (get_table name (create_table save now name cols key opts c).1
        ≡ some (new_table now name cols key opts))
      × ((other : Str)
          → str_eq name other ≡ false
          → get_table other (create_table save now name cols key opts c).1 ≡ get_table other c)
unfolding get_table create_table commit
get_table-create_table save now name cols key opts c free good =
    let table = new_table now name cols key opts in
    let made : create_table save now name cols key opts c
        ≡ commit save (put name table c.db.tables) c =
      ground (arith, free, good) in
    (
      ap (λ r. get_table name r.1) made ∙ find-put name table c.db.tables,
      (λ other d.
          ap (λ r. get_table other r.1) made ∙ find-put_other name other table c.db.tables d),
    )

cut_appended :
    (column : Str) (n : ℕ) (cols : List ColumnDef) (def : ColumnDef)
    → has_column column cols ≡ false
    → str_eq def.name column ≡ true
    → column_index column 0 (cols ++ def ∷ []) ≡ some n
    → take n (cols ++ def ∷ []) ++ drop (suc n) (cols ++ def ∷ []) ≡ cols
cut_appended column n cols def free same at =
    cut_column_lem column n (cols ++ def ∷ []) at ∙ without_column-append column cols def free same

dropped_table :
    (save : Save) (table column : Str) (n : ℕ) (t : Table) (c : Catalog)
    → get_table table c ≡ some t
    → column_index column 0 t.columns ≡ some n
    → listed column t.primary_key ≡ false
    → get_table table (drop_column save table column c).1
      ≡ some (with_columns (take n t.columns ++ drop (suc n) t.columns) t)
unfolding get_table drop_column commit
dropped_table save table column n t c there at plain =
    let next = with_columns (take n t.columns ++ drop (suc n) t.columns) t in
    let made : drop_column save table column c ≡ commit save (put table next c.db.tables) c =
      ground (arith, there, at, plain) in
    ap (λ r. get_table table r.1) made ∙ find-put table next c.db.tables

added_table :
    (save : Save) (table column : Str) (def : ColumnDef) (t : Table) (c : Catalog)
    → get_table table c ≡ some t
    → has_column column t.columns ≡ false
    → get_table table (add_column save table column def c).1
      ≡ some (with_columns (t.columns ++ record def { nullable = true } ∷ []) t)
unfolding get_table add_column commit
added_table save table column def t c there free =
    let next = with_columns (t.columns ++ record def { nullable = true } ∷ []) t in
    let made : add_column save table column def c ≡ commit save (put table next c.db.tables) c =
      ground (arith, there, free) in
    ap (λ r. get_table table r.1) made ∙ find-put table next c.db.tables

index_of {ℓ} : {A : Type ℓ} (o : Option A) → is_some o ≡ true → (a : A) × (o ≡ some a)
index_of none h = cc
index_of (some a) h = (a, refl)

-- A column that is added to a table under a new name, and dropped again, leaves the columns, the
-- key and the segments of the table as they were; its version is two higher (on 64 bits).
pub drop_column-add_column :
    (save : Save) (table column : Str) (def : ColumnDef) (t : Table) (c : Catalog)
    → get_table table c ≡ some t
    → has_column column t.columns ≡ false
    → listed column t.primary_key ≡ false
    → str_eq def.name column ≡ true
    → get_table table (drop_column save table column (add_column save table column def c).1).1
      ≡ some (record t { version = ((t.version + 1) % 2 ^ 64 + 1) % 2 ^ 64 })
drop_column-add_column save table column def t c there free plain same =
    let def' : ColumnDef = record def { nullable = true } in
    let wider : Table = with_columns (t.columns ++ def' ∷ []) t in
    let c' : Catalog = (add_column save table column def c).1 in
    let found : (n : ℕ) × (column_index column 0 (t.columns ++ def' ∷ []) ≡ some n) =
      unfold has_column in
      index_of (column_index column 0 (t.columns ++ def' ∷ []))
        (has_column-last column t.columns def' same) in
    dropped_table save table column found.0 wider c'
      (added_table save table column def t c there free) found.1 plain
    ∙ ap (λ cols. some (with_columns cols wider))
        (cut_appended column found.0 t.columns def' free same found.1)
