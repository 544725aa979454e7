-- ===== src/Common/Printing.antt =====
-- pkg/common/types.go: the printed form of a value. The forms of numbers and times are the standard
-- library's (fmt and time), and parameters.
use test_db.Prelude.{ℕ, not, Str, [], ◌∷◌, ◌==◌, if◌then◌else◌}
use test_db.Common.Types.{
  DataType, bool, int64, int8, int16, int32, uint64, date, float64, string, timestamp, Value,
}

-- What the language and the standard library give: the arithmetic of float64 on its bit patterns,
-- the runes of a string, and the printed forms.
pub record Runtime : Type 0 where
  pub float64_add : ℕ → ℕ → ℕ
  pub float64_sub : ℕ → ℕ → ℕ
  pub float64_mul : ℕ → ℕ → ℕ
  pub float64_div : ℕ → ℕ → ℕ
  pub float64_neg : ℕ → ℕ
  pub runes : Str → Str
  pub format_int64 : ℕ → Str
  pub format_float64 : ℕ → Str
  pub format_date : ℕ → Str
  pub format_time : ℕ → Str

-- "NULL", "true", "false" and "?"
abbrev str_null : Str
str_null = b'N' ∷ b'U' ∷ b'L' ∷ b'L' ∷ []

abbrev str_true : Str
str_true = b't' ∷ b'r' ∷ b'u' ∷ b'e' ∷ []

abbrev str_false : Str
str_false = b'f' ∷ b'a' ∷ b'l' ∷ b's' ∷ b'e' ∷ []

abbrev str_unknown : Str
str_unknown = b'?' ∷ []

-- The `switch v.Typ` of String.
typed_string : Runtime → DataType → Value → Str
typed_string rt bool v = if not (v.int == 0) then str_true else str_false
typed_string rt int64 v = rt.format_int64 v.int
typed_string rt int8 v = rt.format_int64 v.int
typed_string rt int16 v = rt.format_int64 v.int
typed_string rt int32 v = rt.format_int64 v.int
typed_string rt uint64 v = rt.format_int64 v.int
typed_string rt date v = rt.format_date v.int
typed_string rt float64 v = rt.format_float64 v.float
typed_string rt string v = v.str
typed_string rt timestamp v = rt.format_time v.time
typed_string rt _ v = str_unknown

-- v.String()
unfoldable pub value_string : Runtime → Value → Str
unfolding typed_string
value_string rt v = if v.valid then typed_string rt v.typ v else str_null
