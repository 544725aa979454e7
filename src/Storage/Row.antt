-- ===== src/Storage/Row.antt =====
-- The rows that every engine of pkg/storage stores and returns.
use test_db.Prelude.{ℕ, Bool, Str, List}
use test_db.Common.Types.{DataType, Value}

-- A Go map from column names to values, as the list of its entries in the order of iteration.
abbrev pub Columns : Type 0
Columns = List (Str × Value)

-- memtable.go
pub record Row : Type 0 where
  pub version : ℕ
  pub columns : Columns
  pub tombstone : Bool

-- iterator.go
pub record ScanEntry : Type 0 where
  pub key : Str
  pub value : Row

-- engine.go
pub record WriteRow : Type 0 where
  pub key : Str
  pub values : Columns

pub record ColumnMeta : Type 0 where
  pub id : ℕ
  pub name : Str
  pub typ : DataType
