-- ===== src/Common/Types.antt =====
-- pkg/common/types.go: the data types and the values of columns.
pub mod Numbers
use test_db.Prelude.{
  zero, suc, Option, none, some, ℕ, ◌+◌, ◌-◌, ◌<◌, ◌^◌, ◌≡◌, refl, arith, Bool, true, false, not,
  ◌&&◌, ◌||◌, ltb, ◌==◌, if◌then◌else◌, Str, str_ltb, str_eq, [],
}
use test_db.Common.Float.{int64_ltb, float64_eq, float64_ltb, float64_of_int64}

-- `unknown n` is DataType(n + 11), a number that no constant names.
pub data DataType : Type 0 where
  null bool int64 float64 string timestamp date int8 int16 int32 uint64 : DataType
  unknown : ℕ → DataType

-- The number of a DataType.
unfoldable pub number : DataType → ℕ
number null = 0
number bool = 1
number int64 = 2
number float64 = 3
number string = 4
number timestamp = 5
number date = 6
number int8 = 7
number int16 = 8
number int32 = 9
number uint64 = 10
number (unknown n) = n + 11

-- DataType(n + 6)
of_number_from_date : ℕ → DataType
of_number_from_date zero = date
of_number_from_date (suc zero) = int8
of_number_from_date (suc (suc zero)) = int16
of_number_from_date (suc (suc (suc zero))) = int32
of_number_from_date (suc (suc (suc (suc zero)))) = uint64
of_number_from_date (suc (suc (suc (suc (suc n))))) = unknown n

-- DataType(n)
unfoldable pub of_number : ℕ → DataType
unfolding of_number_from_date
of_number zero = null
of_number (suc zero) = bool
of_number (suc (suc zero)) = int64
of_number (suc (suc (suc zero))) = float64
of_number (suc (suc (suc (suc zero)))) = string
of_number (suc (suc (suc (suc (suc zero))))) = timestamp
of_number (suc (suc (suc (suc (suc (suc n)))))) = of_number_from_date n

unfoldable pub is_int_family : DataType → Bool
is_int_family int64 = true
is_int_family int8 = true
is_int_family int16 = true
is_int_family int32 = true
is_int_family uint64 = true
is_int_family date = true
is_int_family _ = false

-- `none` is -1: a type with no fixed size.
unfoldable pub size : DataType → Option ℕ
size null = some 0
size bool = some 1
size string = none
size (unknown n) = none
size _ = some 8

unfoldable pub type_eq : DataType → DataType → Bool
unfolding number
type_eq a b = number a == number b

-- int64 and float64 fields hold 64-bit patterns, and a time.Time its UnixNano as an int64.
pub record Value : Type 0 where
  pub typ : DataType
  pub valid : Bool
  pub int : ℕ
  pub float : ℕ
  pub str : Str
  pub time : ℕ

-- The zero Value of a type, with `Valid` set.
abbrev pub zero_value : DataType → Value
zero_value t = record { typ = t; valid = true; int = 0; float = 0; str = []; time = 0 }

unfoldable pub is_null : Value → Bool
is_null v = not v.valid

unfoldable pub float64_value : Value → ℕ
unfolding is_int_family
float64_value v =
    if type_eq v.typ float64
    then v.float
    else if is_int_family v.typ
    then float64_of_int64 v.int
    else 0

unfoldable pub is_float_int_cross_type : DataType → DataType → Bool
unfolding type_eq is_int_family
is_float_int_cross_type a b =
    (type_eq a float64 && is_int_family b) || (type_eq b float64 && is_int_family a)

-- The `switch v.Typ` of Equal and of Less.
unfoldable pub same_type_eq : DataType → Value → Value → Bool
same_type_eq bool v w = v.int == w.int
same_type_eq int64 v w = v.int == w.int
same_type_eq float64 v w = float64_eq v.float w.float
same_type_eq string v w = str_eq v.str w.str
same_type_eq timestamp v w = v.time == w.time
same_type_eq _ v w = false

unfoldable pub same_type_ltb : DataType → Value → Value → Bool
same_type_ltb bool v w = int64_ltb v.int w.int
same_type_ltb int64 v w = int64_ltb v.int w.int
same_type_ltb timestamp v w = int64_ltb v.time w.time
same_type_ltb float64 v w = float64_ltb v.float w.float
same_type_ltb string v w = str_ltb v.str w.str
same_type_ltb _ v w = false

unfoldable pub equal : Value → Value → Bool
unfolding same_type_eq is_float_int_cross_type float64_value
equal v w =
    if not v.valid && not w.valid
    then true
    else if not v.valid || not w.valid
    then false
    else if is_int_family v.typ && is_int_family w.typ
    then v.int == w.int
    else if is_float_int_cross_type v.typ w.typ
    then float64_eq (float64_value v) (float64_value w)
    else if not (type_eq v.typ w.typ)
    then false
    else same_type_eq v.typ v w

unfoldable pub less : Value → Value → Bool
unfolding same_type_ltb is_float_int_cross_type float64_value
less v w =
    if not v.valid || not w.valid
    then false
    else if is_int_family v.typ && is_int_family w.typ
    then int64_ltb v.int w.int
    else if is_float_int_cross_type v.typ w.typ
    then float64_ltb (float64_value v) (float64_value w)
    else if not (type_eq v.typ w.typ)
    then false
    else same_type_ltb v.typ v w

unfoldable pub new_null : Value
new_null = record (zero_value null) { valid = false }

unfoldable pub new_bool : Bool → Value
new_bool b = record (zero_value bool) { int = if b then 1 else 0 }

unfoldable pub new_int64 : ℕ → Value
new_int64 n = record (zero_value int64) { int = n }

unfoldable pub new_float64 : ℕ → Value
new_float64 x = record (zero_value float64) { float = x }

unfoldable pub new_string : Str → Value
new_string s = record (zero_value string) { str = s }

unfoldable pub new_timestamp : ℕ → Value
new_timestamp t = record (zero_value timestamp) { time = t }

unfoldable pub new_int_family_value : DataType → ℕ → Value
unfolding is_int_family
new_int_family_value t n = record (zero_value (if is_int_family t then t else int64)) { int = n }
