-- ===== src/Catalog/Changes.antt =====
-- pkg/catalog/catalog.go: every change of the schemas, and the reads.
use test_db.Prelude.{
  ℕ, ◌+◌, ◌^◌, ◌%◌, true, Option, none, some, List, [], ◌∷◌, ◌++◌, Str, str_eq, if◌then◌else◌, take,
  drop, suc, Dict, find, put, erase,
}
use test_db.Catalog.Schema.{
  ColumnDef, TableOptions, SegmentRef, Table, Database, Catalog, column_index, has_column, listed,
  missing_key, normalize_engine, has_segment, without_segment,
}

pub data Error : Type 0 where
  table_not_exist column_not_exist no_columns no_primary_key : Error
  table_exists column_exists primary_key_column_not_found cannot_drop_primary_key : Str → Error
  segment_exists segment_not_found : ℕ → Error
  not_saved : Error

-- saveToFile, whose result the file system decides.
abbrev pub Save : Type 0
Save = Str → Database → Option Error

abbrev pub new_database : ℕ → Database
new_database now = record { version = 1; tables = []; created_at = now }

abbrev pub new_catalog : Str → ℕ → Catalog
new_catalog path now = record { db = new_database now; path = path }

unfoldable pub persist : Save → Catalog → Option Error
persist save c = if str_eq c.path [] then none else save c.path c.db

-- The end of every change: the new tables, c.db.Version++ and c.persist().
unfoldable pub commit : Save → Dict Table → Catalog → Option Error × Catalog
unfolding persist
commit save tables c =
    let c' : Catalog = record c {
      db = record (c.db) { version = (c.db.version + 1) % 2 ^ 64; tables = tables };
    } in
    (persist save c', c')

-- What CreateTable refuses of the columns and the primary key.
unfoldable pub schema_error : List ColumnDef → List Str → Option Error
unfolding missing_key
schema_error [] key = some no_columns
schema_error (col ∷ cols) [] = some no_primary_key
schema_error (col ∷ cols) (k ∷ ks) = elim (missing_key (k ∷ ks) (col ∷ cols)) [
  | some pk ↦ some (primary_key_column_not_found pk)
  | none ↦ none
]

unfoldable pub new_table : ℕ → Str → List ColumnDef → List Str → TableOptions → Table
unfolding normalize_engine
new_table now name cols key opts = record {
  name = name;
  columns = cols;
  primary_key = key;
  segment_list = [];
  options = opts;
  version = 1;
  created_at = now;
  engine = normalize_engine opts.engine;
}

unfoldable pub create_table :
    Save → ℕ → Str → List ColumnDef → List Str → TableOptions → Catalog → Option Error × Catalog
unfolding commit schema_error new_table find put
create_table save now name cols key opts c = elim (find name c.db.tables) [
  | some _ ↦ (some (table_exists name), c)
  | none ↦ elim (schema_error cols key) [
    | some e ↦ (some e, c)
    | none ↦ commit save (put name (new_table now name cols key opts) c.db.tables) c
  ]
]

unfoldable pub drop_table : Save → Str → Catalog → Option Error × Catalog
unfolding commit find erase
drop_table save name c = elim (find name c.db.tables) [
  | none ↦ (some table_not_exist, c)
  | some _ ↦ commit save (erase name c.db.tables) c
]

-- tbl.Columns = …; tbl.Version++
abbrev pub with_columns : List ColumnDef → Table → Table
with_columns cols tbl = record tbl { columns = cols; version = (tbl.version + 1) % 2 ^ 64 }

abbrev pub with_segments : List SegmentRef → Table → Table
with_segments segs tbl = record tbl { segment_list = segs }

unfoldable pub add_column : Save → Str → Str → ColumnDef → Catalog → Option Error × Catalog
unfolding commit find put has_column
add_column save table column def c = elim (find table c.db.tables) [
  | none ↦ (some table_not_exist, c)
  | some tbl ↦
      if has_column column tbl.columns
      then (some (column_exists column), c)
      else commit save
          (put table (with_columns (tbl.columns ++ record def { nullable = true } ∷ []) tbl)
            c.db.tables)
          c
]

unfoldable pub drop_column : Save → Str → Str → Catalog → Option Error × Catalog
unfolding commit find put column_index listed
drop_column save table column c = elim (find table c.db.tables) [
  | none ↦ (some table_not_exist, c)
  | some tbl ↦ elim (column_index column 0 tbl.columns) [
    | none ↦ (some column_not_exist, c)
    | some idx ↦
        if listed column tbl.primary_key
        then (some (cannot_drop_primary_key column), c)
        else commit save
            (put table (with_columns (take idx tbl.columns ++ drop (suc idx) tbl.columns) tbl)
              c.db.tables)
            c
  ]
]

unfoldable pub register_segment : Save → Str → SegmentRef → Catalog → Option Error × Catalog
unfolding commit find put has_segment
register_segment save table seg c = elim (find table c.db.tables) [
  | none ↦ (some table_not_exist, c)
  | some tbl ↦
      if has_segment seg.id tbl.segment_list
      then (some (segment_exists seg.id), c)
      else commit save (put table (with_segments (tbl.segment_list ++ seg ∷ []) tbl) c.db.tables) c
]

unfoldable pub unregister_segment : Save → Str → ℕ → Catalog → Option Error × Catalog
unfolding commit find put without_segment
unregister_segment save table id c = elim (find table c.db.tables) [
  | none ↦ (some table_not_exist, c)
  | some tbl ↦ elim (without_segment id tbl.segment_list) [
    | none ↦ (some (segment_not_found id), c)
    | some rest ↦ commit save (put table (with_segments rest tbl) c.db.tables) c
  ]
]

unfoldable pub get_table : Str → Catalog → Option Table
unfolding find
get_table name c = find name c.db.tables

unfoldable pub snapshot : Catalog → Database
snapshot c = c.db

unfoldable pub catalog_version : Catalog → ℕ
catalog_version c = c.db.version
