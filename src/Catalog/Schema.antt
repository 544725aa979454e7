-- ===== src/Catalog/Schema.antt =====
-- pkg/catalog/schema.go: tables, their columns and their segments.
use test_db.Prelude.{
  ℕ, ◌+◌, Bool, true, false, Option, none, some, List, [], ◌∷◌, Str, str_eq, ◌==◌, if◌then◌else◌,
  Dict,
}
use test_db.Common.Types.{DataType, Value}

pub record ColumnDef : Type 0 where
  pub name : Str
  pub typ : DataType
  pub nullable : Bool
  pub default : Value

pub record TableOptions : Type 0 where
  pub max_segment_size : ℕ
  pub max_mem_table_size : ℕ
  pub engine : Str

pub record SegmentRef : Type 0 where
  pub id : ℕ
  pub level : ℕ
  pub min_key : Str
  pub max_key : Str
  pub size : ℕ
  pub row_count : ℕ

pub record Table : Type 0 where
  pub name : Str
  pub columns : List ColumnDef
  pub primary_key : List Str
  pub segment_list : List SegmentRef
  pub options : TableOptions
  pub version : ℕ
  pub created_at : ℕ
  pub engine : Str

pub record Database : Type 0 where
  pub version : ℕ
  pub tables : Dict Table
  pub created_at : ℕ

pub record Catalog : Type 0 where
  pub db : Database
  pub path : Str

-- Table.ColumnIndex, counting from `i`.
unfoldable pub column_index : Str → ℕ → List ColumnDef → Option ℕ
column_index name i [] = none
column_index name i (c ∷ cs) =
    let rest = column_index name (i + 1) cs in if str_eq c.name name then some i else rest

abbrev pub is_some {ℓ} : {A : Type ℓ} → Option A → Bool
is_some none = false
is_some (some a) = true

unfoldable pub has_column : Str → List ColumnDef → Bool
unfolding column_index
has_column name cols = is_some (column_index name 0 cols)

-- Whether a string is among those of a list.
unfoldable pub listed : Str → List Str → Bool
listed s [] = false
listed s (x ∷ xs) = let rest = listed s xs in if str_eq x s then true else rest

-- The first primary key column that no column of the table has the name of.
unfoldable pub missing_key : List Str → List ColumnDef → Option Str
unfolding has_column
missing_key [] cols = none
missing_key (k ∷ ks) cols =
    let rest = missing_key ks cols in if has_column k cols then rest else some k

abbrev engine_lsm : Str
engine_lsm = b'l' ∷ b's' ∷ b'm' ∷ []

abbrev engine_memory : Str
engine_memory = b'm' ∷ b'e' ∷ b'm' ∷ b'o' ∷ b'r' ∷ b'y' ∷ []

unfoldable pub normalize_engine : Str → Str
normalize_engine engine = if str_eq engine engine_memory then engine_memory else engine_lsm

unfoldable pub has_segment : ℕ → List SegmentRef → Bool
has_segment id [] = false
has_segment id (s ∷ ss) = let rest = has_segment id ss in if s.id == id then true else rest

-- The list without its first segment of an ID; `none` if there is none.
unfoldable pub without_segment : ℕ → List SegmentRef → Option (List SegmentRef)
without_segment id [] = none
without_segment id (s ∷ ss) =
    let rest = without_segment id ss in
    if s.id == id then some ss else elim rest [ none ↦ none | some ys ↦ some (s ∷ ys) ]
