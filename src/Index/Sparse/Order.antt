-- ===== src/Index/Sparse/Order.antt =====
-- Values of one class (the integer types, floats other than NaN, strings, …): `Less` is a linear order.
use test_db.Prelude.{
  ℕ, ◌≡◌, refl, sym, ap, ◌∙◌, true, false, [], ◌∷◌, arith, Str, str_compare, str_ltb, eq_of_str_eq,
  ltb,
}
use test_db.Common.Float.{biased, rank, is_nan, float64_eq, float64_ltb}
use test_db.Common.Types.{
  DataType, bool, float64, string, timestamp, Value, is_int_family, less, equal, type_eq,
  is_float_int_cross_type, same_type_eq, same_type_ltb,
}

pub data Class : Type 0 where
  integers floats strings booleans times : Class

-- The values of a class.
abbrev pub Belongs : Class → Value → Type 0
Belongs integers v = (v.valid ≡ true) × (is_int_family v.typ ≡ true)
Belongs floats v = (v.valid ≡ true) × (v.typ ≡ float64) × (is_nan v.float ≡ false)
Belongs strings v = (v.valid ≡ true) × (v.typ ≡ string)
Belongs booleans v = (v.valid ≡ true) × (v.typ ≡ bool)
Belongs times v = (v.valid ≡ true) × (v.typ ≡ timestamp)

-- What orders the values of a class, as a string.
unfoldable pub key : Class → Value → Str
key integers v = biased v.int ∷ []
key floats v = rank v.float ∷ []
key strings v = v.str
key booleans v = biased v.int ∷ []
key times v = biased v.time ∷ []

single_ltb : (a b : ℕ) → ltb a b ≡ str_ltb (a ∷ []) (b ∷ [])
unfolding str_compare
single_ltb a b = ground arith

-- Neither the integer types nor a mix of them and floats.
abbrev Plain : Value → Value → DataType → Type 0
Plain v w t =
    (v.valid ≡ true) × (w.valid ≡ true) × (v.typ ≡ t) × (w.typ ≡ t) × (is_int_family t ≡ false)

not_crossed : (t : DataType) → is_int_family t ≡ false → is_float_int_cross_type t t ≡ false
unfolding is_float_int_cross_type
not_crossed t h = ground (arith, h)

type_eq_refl : (t : DataType) → type_eq t t ≡ true
unfolding type_eq
type_eq_refl t = ground arith

plain_tests :
    (v w : Value) (t : DataType)
    → Plain v w t
    → (is_int_family v.typ ≡ false)
      × (is_float_int_cross_type v.typ w.typ ≡ false)
      × (type_eq v.typ w.typ ≡ true)
plain_tests v w t h = (
  ap is_int_family h.2 ∙ h.4,
  ap (λ a. is_float_int_cross_type a w.typ) h.2
      ∙ ap (is_float_int_cross_type t) h.3
      ∙ not_crossed t h.4,
  ap (λ a. type_eq a w.typ) h.2 ∙ ap (type_eq t) h.3 ∙ type_eq_refl t,
)

less_plain : (v w : Value) (t : DataType) → Plain v w t → less v w ≡ same_type_ltb t v w
unfolding less
less_plain v w t h =
    let tests = plain_tests v w t h in
    let through : less v w ≡ same_type_ltb v.typ v w =
      ground (arith, h.0, h.1, tests.0, tests.1, tests.2) in
    through ∙ ap (λ a. same_type_ltb a v w) h.2

equal_plain : (v w : Value) (t : DataType) → Plain v w t → equal v w ≡ same_type_eq t v w
unfolding equal
equal_plain v w t h =
    let tests = plain_tests v w t h in
    let through : equal v w ≡ same_type_eq v.typ v w =
      ground (arith, h.0, h.1, tests.0, tests.1, tests.2) in
    through ∙ ap (λ a. same_type_eq a v w) h.2

pub less-key :
    (c : Class) (v w : Value) → Belongs c v → Belongs c w → less v w ≡ str_ltb (key c v) (key c w)
unfolding key same_type_ltb
less-key integers v w h k =
    unfold less in ground (arith, h, k, single_ltb (biased v.int) (biased w.int))
less-key floats v w h k =
    less_plain v w float64 (h.0, k.0, h.1, k.1, unfold is_int_family in refl)
    ∙ (unfold float64_ltb in ground (arith, h, k, single_ltb (rank v.float) (rank w.float)))
less-key strings v w h k = less_plain v w string (h.0, k.0, h.1, k.1, unfold is_int_family in refl)
less-key booleans v w h k =
    less_plain v w bool (h.0, k.0, h.1, k.1, unfold is_int_family in refl)
    ∙ single_ltb (biased v.int) (biased w.int)
less-key times v w h k =
    less_plain v w timestamp (h.0, k.0, h.1, k.1, unfold is_int_family in refl)
    ∙ single_ltb (biased v.time) (biased w.time)

pub equal-key :
    (c : Class) (v w : Value) → Belongs c v → Belongs c w → equal v w ≡ true → key c v ≡ key c w
unfolding key same_type_eq float64_eq
equal-key integers v w h k e = ap (λ n. biased n ∷ []) (unfold equal in ground (arith, h, k, e))
equal-key floats v w h k e =
    let plain = equal_plain v w float64 (h.0, k.0, h.1, k.1, unfold is_int_family in refl) in
    ap (λ n. n ∷ []) (ground (arith, h, k, e, plain))
equal-key strings v w h k e =
    let plain = equal_plain v w string (h.0, k.0, h.1, k.1, unfold is_int_family in refl) in
    eq_of_str_eq v.str w.str (sym plain ∙ e)
equal-key booleans v w h k e =
    let plain = equal_plain v w bool (h.0, k.0, h.1, k.1, unfold is_int_family in refl) in
    ap (λ n. biased n ∷ []) (ground (arith, e, plain))
equal-key times v w h k e =
    let plain = equal_plain v w timestamp (h.0, k.0, h.1, k.1, unfold is_int_family in refl) in
    ap (λ n. biased n ∷ []) (ground (arith, e, plain))
