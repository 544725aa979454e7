-- ===== src/Index/Sparse.antt =====
-- pkg/index/sparse.go: the least and the greatest value of each column of each segment.
pub mod Order
pub mod Skip
pub mod Bounds
pub mod Stats
mod Runs
use test_db.Prelude.{
  ℕ, ◌+◌, ◌%◌, ◌^◌, ◌≡◌, Bool, true, false, not, ◌&&◌, ◌||◌, Option, none, some, List, [], ◌∷◌,
  length, ltb, ◌==◌, if◌then◌else◌, Bytes, get_le,
}
use test_db.Common.Types.{
  DataType, null, bool, int64, float64, string, timestamp, date, int8, int16, int32, uint64,
  unknown, Value, zero_value, is_null, less, new_null, new_bool, new_float64, new_string,
  new_timestamp, new_int_family_value,
}

pub data PredicateOp : Type 0 where
  op_equal op_not_equal op_less op_less_equal op_greater op_greater_equal : PredicateOp

pub record ColumnSparseStat : Type 0 where
  pub min_value : Value
  pub max_value : Value
  pub null_count : ℕ
  pub has_values : Bool

pub record ColStatKey : Type 0 where
  pub seg_id : ℕ
  pub col_id : ℕ

-- The map of the statistics.
abbrev pub Stats : Type 0
Stats = List (ColStatKey × ColumnSparseStat)

-- The zero Value of Go, and the statistics of a column without values.
abbrev pub no_value : Value
no_value = record (zero_value null) { valid = false }

abbrev pub empty_stat : ℕ → ColumnSparseStat
empty_stat nulls = record {
  min_value = no_value;
  max_value = no_value;
  null_count = nulls;
  has_values = false;
}

unfoldable pub is_key : ℕ → ℕ → ColStatKey → Bool
is_key seg col k = k.seg_id == seg && k.col_id == col

-- si.stats[key] = stat
unfoldable pub put_stat : ℕ → ℕ → ColumnSparseStat → Stats → Stats
unfolding is_key
put_stat seg col stat [] = (record { seg_id = seg; col_id = col }, stat) ∷ []
put_stat seg col stat ((k, s) ∷ stats) =
    let rest = put_stat seg col stat stats in
    if is_key seg col k then (k, stat) ∷ stats else (k, s) ∷ rest

unfoldable pub get_column_stat : ℕ → ℕ → Stats → Option ColumnSparseStat
unfolding is_key
get_column_stat seg col [] = none
get_column_stat seg col ((k, s) ∷ stats) =
    let rest = get_column_stat seg col stats in if is_key seg col k then some s else rest

unfoldable pub unregister_stats : ℕ → Stats → Stats
unregister_stats seg [] = []
unregister_stats seg ((k, s) ∷ stats) =
    let rest = unregister_stats seg stats in if k.seg_id == seg then rest else (k, s) ∷ rest

-- Eight bytes or more, as a value; fewer are NULL.
abbrev word_value : (ℕ → Value) → Bytes → Value
word_value f bs = if ltb (length bs) 8 then new_null else f (get_le 8 bs)

unfoldable pub bytes_to_value : Bytes → DataType → Value
unfolding new_null new_bool new_float64 new_string new_timestamp new_int_family_value
bytes_to_value bs int64 = word_value (new_int_family_value int64) bs
bytes_to_value bs int8 = word_value (new_int_family_value int8) bs
bytes_to_value bs int16 = word_value (new_int_family_value int16) bs
bytes_to_value bs int32 = word_value (new_int_family_value int32) bs
bytes_to_value bs uint64 = word_value (new_int_family_value uint64) bs
bytes_to_value bs date = word_value (new_int_family_value date) bs
bytes_to_value bs float64 = word_value new_float64 bs
bytes_to_value bs timestamp = word_value new_timestamp bs
bytes_to_value [] bool = new_null
bytes_to_value (b ∷ bs) bool = new_bool (not (b == 0))
bytes_to_value bs string = new_string bs
bytes_to_value bs null = new_null
bytes_to_value bs (unknown n) = new_null

unfoldable pub register_column_stat : ℕ → ℕ → Bytes → Bytes → ℕ → DataType → Stats → Stats
unfolding bytes_to_value put_stat
register_column_stat seg col min max nulls t stats =
    let stat : ColumnSparseStat =
      if length min == 0 || length max == 0 then empty_stat nulls else record {
        min_value = bytes_to_value min t;
        max_value = bytes_to_value max t;
        null_count = nulls;
        has_values = true;
      } in
    put_stat seg col stat stats

-- The `switch op` of CanSkip.
unfoldable pub skips : PredicateOp → Value → Value → Value → Bool
unfolding less
skips op_equal min max value = less value min || less max value
skips op_not_equal min max value = false
skips op_less min max value = not (less min value)
skips op_less_equal min max value = less value min
skips op_greater min max value = not (less value max)
skips op_greater_equal min max value = less max value

unfoldable pub can_skip : ℕ → ℕ → PredicateOp → Value → Stats → Bool
unfolding get_column_stat skips
can_skip seg col op value stats = elim (get_column_stat seg col stats) [
  | none ↦ false
  | some css ↦ if css.has_values then skips op css.min_value css.max_value value else false
]

-- What the loop of BuildFromColumnVector makes of a value that is not NULL.
unfoldable pub add_value : Value → ColumnSparseStat → ColumnSparseStat
unfolding less
add_value v stat =
    if not stat.has_values
    then record stat { min_value = v; max_value = v; has_values = true }
    else record stat {
      min_value = if less v stat.min_value then v else stat.min_value;
      max_value = if less stat.max_value v then v else stat.max_value;
    }

-- The rows of a column vector, each with its bit in the bitmap of NULLs and its value.
abbrev pub Column : Type 0
Column = List (Bool × Value)

unfoldable pub build_loop : Column → ColumnSparseStat → ColumnSparseStat
unfolding add_value is_null
build_loop [] stat = stat
build_loop ((flagged, v) ∷ rows) stat =
    if flagged || is_null v
    then build_loop rows (record stat { null_count = (stat.null_count + 1) % 2 ^ 32 })
    else build_loop rows (add_value v stat)

unfoldable pub build_from_column_vector : ℕ → ℕ → Column → Stats → Stats
unfolding build_loop put_stat
build_from_column_vector seg col [] stats = stats
build_from_column_vector seg col (r ∷ rows) stats =
    put_stat seg col (build_loop (r ∷ rows) (empty_stat 0)) stats

unfoldable pub stat_count : Stats → ℕ
stat_count stats = length stats
