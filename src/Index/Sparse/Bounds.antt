-- ===== src/Index/Sparse/Bounds.antt =====
-- What the loop of BuildFromColumnVector does with one value.
use test_db.Prelude.{
  ◌≡◌, refl, sym, ◌∙◌, true, false, ◌||◌, [], ◌∷◌, Bool-cases, ◌⊎◌, inl, inr, AtMost, AtMost-trans,
  AtMost-refl, AtMost-below, if◌then◌else◌,
}
use test_db.Common.Types.{Value, less, is_null}
use test_db.Index.Sparse.{ColumnSparseStat, Column, add_value}
use test_db.Index.Sparse.Order.{Class, Belongs, key, less-key}
use test_db.Index.Sparse.Skip.{Between}

-- The row of a column holds a value of the class, or is NULL.
abbrev pub AllBelong : Class → Column → Type 0
AllBelong c [] = Unit
AllBelong c ((flagged, v) ∷ rows) =
    (((flagged || is_null v) ≡ true) ⊎ Belongs c v) × AllBelong c rows

-- Statistics with bounds of the class.
abbrev pub Spans : Class → ColumnSparseStat → Type 0
Spans c s = (s.has_values ≡ true) × Belongs c s.min_value × Belongs c s.max_value

abbrev pub Wider : Class → ColumnSparseStat → ColumnSparseStat → Type 0
Wider c s r =
    AtMost (key c r.min_value) (key c s.min_value) × AtMost (key c s.max_value) (key c r.max_value)

pub Wider-refl : (c : Class) (s : ColumnSparseStat) → Wider c s s
Wider-refl c s = (AtMost-refl (key c s.min_value), AtMost-refl (key c s.max_value))

pub Wider-trans : (c : Class) (s r t : ColumnSparseStat) → Wider c s r → Wider c r t → Wider c s t
Wider-trans c s r t h k = (
  AtMost-trans (key c t.min_value) (key c r.min_value) (key c s.min_value) k.0 h.0,
  AtMost-trans (key c s.max_value) (key c r.max_value) (key c t.max_value) h.1 k.1,
)

-- The lesser of two values, and the greater.
lesser :
    (c : Class) (v m : Value)
    → Belongs c v
    → Belongs c m
    → Belongs c (if less v m then v else m)
      × AtMost (key c (if less v m then v else m)) (key c m)
      × AtMost (key c (if less v m then v else m)) (key c v)
lesser c v m hv hm = elim (Bool-cases (less v m)) [
  | inl is_less ↦ rw (is_less) (
    hv,
    AtMost-below (key c v) (key c m) (sym (less-key c v m hv hm) ∙ is_less),
    AtMost-refl (key c v),
  )
  | inr not_less ↦ rw (not_less) (hm, AtMost-refl (key c m), sym (less-key c v m hv hm) ∙ not_less)
]

greater :
    (c : Class) (v m : Value)
    → Belongs c v
    → Belongs c m
    → Belongs c (if less m v then v else m)
      × AtMost (key c m) (key c (if less m v then v else m))
      × AtMost (key c v) (key c (if less m v then v else m))
greater c v m hv hm = elim (Bool-cases (less m v)) [
  | inl is_less ↦ rw (is_less) (
    hv,
    AtMost-below (key c m) (key c v) (sym (less-key c m v hm hv) ∙ is_less),
    AtMost-refl (key c v),
  )
  | inr not_less ↦ rw (not_less) (hm, AtMost-refl (key c m), sym (less-key c m v hm hv) ∙ not_less)
]

-- What a value adds to statistics, empty or not.
pub add_value_lem :
    (c : Class) (v : Value) (s : ColumnSparseStat)
    → Belongs c v
    → (s.has_values ≡ false) ⊎ Spans c s
    → Spans c (add_value v s) × Between c (add_value v s).min_value (add_value v s).max_value v
unfolding add_value
add_value_lem c v s hv (inl fresh) =
    rw (fresh) ((refl, hv, hv), (AtMost-refl (key c v), AtMost-refl (key c v)))
add_value_lem c v s hv (inr h) =
    let low = lesser c v s.min_value hv h.1 in
    let high = greater c v s.max_value hv h.2 in rw (h.0) ((refl, low.0, high.0), (low.2, high.2))

pub add_value-Wider :
    (c : Class) (v : Value) (s : ColumnSparseStat)
    → Belongs c v
    → Spans c s
    → Wider c s (add_value v s)
unfolding add_value
add_value-Wider c v s hv h =
    rw (h.0) ((lesser c v s.min_value hv h.1).1, (greater c v s.max_value hv h.2).1)
