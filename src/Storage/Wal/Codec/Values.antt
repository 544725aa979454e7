-- ===== src/Storage/Wal/Codec/Values.antt =====
-- A value of the log: what its reader makes of what its writer wrote.
use mathlib.Core.List.{append_assoc}
use test_db.Prelude.{
  ℕ, ◌+◌, ◌%◌, ◌^◌, ◌<◌, ◌≡◌, refl, ap, ◌∙◌, Bool, true, false, not, ◌∷◌, ◌++◌, arith, Str, length,
  length-append, take-append, drop-append, ltb, ◌==◌, Bytes, put_le, get_le, get_le-put_le,
  length-put_le, put_le_fits, drop-put_le, prefix_fits,
}
use test_db.Common.Types.{
  DataType, null, bool, int64, float64, string, timestamp, date, int8, int16, int32, uint64,
  unknown, number, Value, zero_value, new_int_family_value,
}
use test_db.Common.Types.Numbers.{of_number-number}
use test_db.Storage.Wal.Codec.{
  ok, bare, flag, payload, value_bytes, read_fixed, read_string_value, read_typed_value,
  read_tagged, read_value_binary,
}

-- The value that the log keeps: one field, by the type.
unfoldable pub stored : DataType → Value → Value
stored bool v = record (bare bool) { int = flag (not (v.int == 0)) }
stored int64 v = record (zero_value int64) { int = v.int }
stored int8 v = record (zero_value int8) { int = v.int }
stored int16 v = record (zero_value int16) { int = v.int }
stored int32 v = record (zero_value int32) { int = v.int }
stored uint64 v = record (zero_value uint64) { int = v.int }
stored date v = record (zero_value date) { int = v.int }
stored float64 v = record (bare float64) { float = v.float }
stored string v = record (bare string) { str = v.str }
stored timestamp v = record (bare timestamp) { time = v.time }
stored null v = v
stored (unknown n) v = v

-- Of a type that the log can hold, and within the widths of its fields.
abbrev pub FitsAs : DataType → Value → Type 0
FitsAs bool v = Unit
FitsAs float64 v = v.float < 2 ^ 64
FitsAs string v = length v.str < 2 ^ 16
FitsAs timestamp v = v.time < 2 ^ 64
FitsAs null v = ⊥
FitsAs (unknown n) v = ⊥
FitsAs _ v = v.int < 2 ^ 64

-- Eight bytes of a word, whatever is made of them.
read_fixed_le :
    (f : Bytes → Value) (n : ℕ) (rest : Bytes)
    → read_fixed 8 f (put_le 8 n ++ rest) ≡ ok (f (put_le 8 n ++ rest), length (put_le 8 n))
unfolding read_fixed
read_fixed_le f n rest = rw (put_le_fits 8 n rest, length-put_le)

read_word :
    (f : ℕ → Value) (n : ℕ) (rest : Bytes)
    → n < 2 ^ 64
    → read_fixed 8 (λ b. f (get_le 8 b)) (put_le 8 n ++ rest) ≡ ok (f n, length (put_le 8 n))
read_word f n rest h =
    read_fixed_le (λ b. f (get_le 8 b)) n rest
    ∙ ap (λ m. ok (f m, length (put_le 8 n))) (get_le-put_le 8 n rest h)

read_string :
    (s rest : Str)
    → length s < 2 ^ 16
    → read_string_value ((put_le 2 (length s) ++ s) ++ rest)
      ≡ ok (record (bare string) { str = s }, length (put_le 2 (length s) ++ s))
unfolding read_string_value
read_string s rest h =
    let n = length s in
    let size : length (put_le 2 n ++ (s ++ rest)) ≡ 2 + n + length rest = omega (
      arith,
      length-append {0} (put_le 2 n) (s ++ rest),
      length-append {0} s rest,
      length-put_le 2 n,
    ) in
    let fits : ltb (length (put_le 2 n ++ (s ++ rest))) (2 + n) ≡ false = ground (arith, size) in
    rw (append_assoc (put_le 2 n) s rest, get_le-put_le 2 n (s ++ rest) h)
      (rw (put_le_fits 2 n (s ++ rest), drop-put_le 2 n (s ++ rest))
        (rw (fits, take-append s rest, length-append (put_le 2 n) s, length-put_le 2 n)))

typed_round_trip :
    (t : DataType) (v : Value) (rest : Bytes)
    → FitsAs t v
    → read_typed_value t (payload t v ++ rest) ≡ ok (stored t v, length (payload t v))
unfolding read_typed_value payload stored
typed_round_trip bool v rest h = unfold read_fixed in ground arith
typed_round_trip int64 v rest h = read_word (new_int_family_value int64) v.int rest h
typed_round_trip int8 v rest h = read_word (new_int_family_value int8) v.int rest h
typed_round_trip int16 v rest h = read_word (new_int_family_value int16) v.int rest h
typed_round_trip int32 v rest h = read_word (new_int_family_value int32) v.int rest h
typed_round_trip uint64 v rest h = read_word (new_int_family_value uint64) v.int rest h
typed_round_trip date v rest h = read_word (new_int_family_value date) v.int rest h
typed_round_trip float64 v rest h =
    read_word (λ n. record (bare float64) { float = n }) v.float rest h
typed_round_trip timestamp v rest h =
    read_word (λ n. record (bare timestamp) { time = n }) v.time rest h
typed_round_trip string v rest h = read_string v.str rest h
typed_round_trip null v rest h = absurd h
typed_round_trip (unknown n) v rest h = absurd h

-- A value as the log gives it back.
abbrev pub restored : Value → Value
restored v = record (stored v.typ v) { valid = v.valid }

abbrev pub Fits : Str → Value → Type 0
Fits name v = (length name < 2 ^ 16) × FitsAs v.typ v

type_byte : (t : DataType) (v : Value) → FitsAs t v → number t % 256 ≡ number t
unfolding number
type_byte null v h = absurd h
type_byte (unknown n) v h = absurd h
type_byte _ v h = refl

flag_test : (b : Bool) → not (flag b == 0) ≡ b
flag_test true = refl
flag_test false = refl

tagged_round_trip :
    (name : Str) (used : ℕ) (v : Value) (rest : Bytes)
    → FitsAs v.typ v
    → read_tagged name used (number v.typ % 256 ∷ flag v.valid ∷ (payload v.typ v ++ rest))
      ≡ ok (name, restored v, used + 2 + length (payload v.typ v))
unfolding read_tagged
tagged_round_trip name used v rest h =
    rw (type_byte v.typ v h, of_number-number v.typ)
      (rw (typed_round_trip v.typ v rest h) (rw (flag_test v.valid)))

-- A name behind its length is read, and the rest is left.
pub name_step :
    (name rest : Bytes)
    → length name < 2 ^ 16
    → read_value_binary (put_le 2 (length name) ++ (name ++ rest))
      ≡ read_tagged name (2 + length name) rest
unfolding read_value_binary
name_step name rest h =
    let n = length name in
    rw
      (
        put_le_fits 2 n (name ++ rest),
        drop-put_le 2 n (name ++ rest),
        get_le-put_le 2 n (name ++ rest) h,
      )
      (rw (prefix_fits name rest, take-append name rest, drop-append name rest))

pub length-value_bytes :
    (name : Str) (v : Value)
    → 2 + length name + 2 + length (payload v.typ v) ≡ length (value_bytes name v)
unfolding value_bytes
length-value_bytes name v =
    let tail = number v.typ % 256 ∷ flag v.valid ∷ payload v.typ v in
    omega (
      arith,
      length-append {0} (put_le 2 (length name)) (name ++ tail),
      length-append {0} name tail,
      length-put_le 2 (length name),
    )

-- Behind a value that fits, whatever follows, its reader gives back the name, the value as the log
-- keeps it, and its size.
pub value_round_trip :
    (name : Str) (v : Value) (rest : Bytes)
    → Fits name v
    → read_value_binary (value_bytes name v ++ rest)
      ≡ ok (name, restored v, length (value_bytes name v))
value_round_trip name v rest h =
    let tail = number v.typ % 256 ∷ flag v.valid ∷ payload v.typ v in
    let regroup : value_bytes name v ++ rest ≡ put_le 2 (length name) ++ (name ++ (tail ++ rest)) =
      unfold value_bytes in
      append_assoc (put_le 2 (length name)) (name ++ tail) rest
      ∙ ap (λ l. put_le 2 (length name) ++ l) (append_assoc name tail rest) in
    ap read_value_binary regroup
    ∙ name_step name (tail ++ rest) h.0
    ∙ tagged_round_trip name (2 + length name) v rest h.1
    ∙ ap (λ n. ok (name, restored v, n)) (length-value_bytes name v)
