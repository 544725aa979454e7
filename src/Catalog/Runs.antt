-- ===== src/Catalog/Runs.antt =====
-- The catalog (pkg/catalog) at concrete inputs.
use test_db.Prelude.{
  ◌≡◌, ◌≢◌, ◌+◌, ◌%◌, ◌^◌, ◌⊎◌, refl, false, none, some, [], ◌∷◌, Str, str_compare,
}
use test_db.Common.Types.{int64, zero_value}
use test_db.Catalog.Schema.{ColumnDef, TableOptions, Table, Catalog}
use test_db.Catalog.Changes.{
  Save, new_catalog, create_table, persist, schema_error, new_table, not_saved,
  primary_key_column_not_found,
}
use test_db.Catalog.Shape.{IsWellFormed}
use test_db.Catalog.Contract.{
  do_create_table, do_drop_table, do_add_column, do_drop_column, apply, run, run-IsWellFormed,
  apply-version,
}

abbrev id_column : Str
id_column = b'i' ∷ b'd' ∷ []

abbrev name_column : Str
name_column = b'n' ∷ []

abbrev users : Str
users = b'u' ∷ []

abbrev orders : Str
orders = b'o' ∷ []

abbrev column : Str → ColumnDef
column name = record { name = name; typ = int64; nullable = false; default = zero_value int64 }

abbrev options : TableOptions
options = record { max_segment_size = 0; max_mem_table_size = 0; engine = [] }

abbrev broken_disk : Save
broken_disk path db = some not_saved

abbrev empty : Catalog
empty = new_catalog (b'f' ∷ []) 0

abbrev users_table : Table
users_table = new_table 7 users (column id_column ∷ []) (id_column ∷ []) options

abbrev with_users : Catalog
with_users = record empty {
  db = record { version = 2; tables = (users, users_table) ∷ []; created_at = 0 };
}

refused_key :
    schema_error (column id_column ∷ []) (name_column ∷ [])
    ≡ some (primary_key_column_not_found name_column)
unfolding schema_error str_compare
refused_key = refl

unsaved_table :
    create_table broken_disk 7 users (column id_column ∷ []) (id_column ∷ []) options empty
    ≡ (some not_saved, with_users)
unfolding create_table str_compare
unsaved_table = refl

run-IsWellFormed_example :
    IsWellFormed
      (run broken_disk
        (do_create_table 7 users (column id_column ∷ []) (id_column ∷ []) options
          ∷ do_add_column users name_column (column name_column)
          ∷ do_drop_column users id_column
          ∷ [])
        empty).db.tables
run-IsWellFormed_example =
    run-IsWellFormed broken_disk
      (do_create_table 7 users (column id_column ∷ []) (id_column ∷ []) options
        ∷ do_add_column users name_column (column name_column)
        ∷ do_drop_column users id_column
        ∷ [])
      empty tt

apply-version_example :
    (((apply broken_disk (do_drop_table users) with_users).0 ≢ none)
      × ((apply broken_disk (do_drop_table users) with_users).1 ≡ with_users))
    ⊎ (((apply broken_disk (do_drop_table users) with_users).1.db.version
          ≡ (with_users.db.version + 1) % 2 ^ 64)
        × ((apply broken_disk (do_drop_table users) with_users).0
            ≡ persist broken_disk (apply broken_disk (do_drop_table users) with_users).1))
apply-version_example = apply-version broken_disk (do_drop_table users) with_users
