-- ===== src/Index/Sparse/Skip.antt =====
-- What CanSkip may conclude from a least and a greatest value.
use mathlib.Core.Path.{subst}
use test_db.Prelude.{
  ◌≡◌, refl, sym, ap, ◌∙◌, Bool, true, false, not, ◌||◌, none, some, arith, str_ltb,
  str_ltb_cotrans, Bool-cases, inl, inr, AtMost, AtMost-trans, AtMost-refl, below-AtMost, ◌⊎◌,
}
use test_db.Common.Types.{Value, less, equal}
use test_db.Index.Sparse.{skips}
use test_db.Index.Sparse.Order.{Class, Belongs, key, less-key, equal-key}
use test_db.Query.Compare.{
  BinaryOp, op_eq, op_ne, op_lt, op_le, op_gt, op_ge, compare_values, op_to_index_op,
}

-- A value lies between two bounds, in the order of its class.
abbrev pub Between : Class → Value → Value → Value → Type 0
Between c min max v = AtMost (key c min) (key c v) × AtMost (key c v) (key c max)

-- Whether the index, asked for an operator of the query, skips.
abbrev pub skips_for : BinaryOp → Value → Value → Value → Bool
skips_for op min max value = elim (op_to_index_op op) [
  | none ↦ false
  | some p ↦ skips p min max value
]

module _ (c : Class) (min max value v : Value) (hmin : Belongs c min) (hmax : Belongs c max)
    (hvalue : Belongs c value) (hv : Belongs c v) (between : Between c min max v) where
  below : less value min ≡ true → str_ltb (key c value) (key c v) ≡ true
  below h =
      below-AtMost (key c value) (key c min) (key c v) (sym (less-key c value min hvalue hmin) ∙ h)
        between.0

  above : less max value ≡ true → str_ltb (key c v) (key c value) ≡ true
  above h =
      str_ltb_cotrans (key c max) (key c v) (key c value)
        (sym (less-key c max value hmax hvalue) ∙ h) between.1

  unequal_keys :
      (str_ltb (key c v) (key c value) ≡ true) ⊎ (str_ltb (key c value) (key c v) ≡ true)
      → key c v ≡ key c value
      → ⊥
  unequal_keys (inl h) e =
      let same : str_ltb (key c v) (key c v) ≡ true =
        subst (λ k. str_ltb (key c v) k ≡ true) (sym e) h in
      ground (arith, same, AtMost-refl (key c v))
  unequal_keys (inr h) e =
      let same : str_ltb (key c v) (key c v) ≡ true =
        subst (λ k. str_ltb k (key c v) ≡ true) (sym e) h in
      ground (arith, same, AtMost-refl (key c v))

  unequal : less value min || less max value ≡ true → equal v value ≡ false
  unequal h = elim (Bool-cases (equal v value)) [
    | inr differs ↦ differs
    | inl equals ↦
        let e = equal-key c v value hv hvalue equals in
        absurd (elim (Bool-cases (less value min)) [
          | inl low ↦ unequal_keys (inr (below low)) e
          | inr high ↦ unequal_keys (inl (above (ground (arith, h, high)))) e
        ])
  ]

  pub skips_for_lem :
      (op : BinaryOp) → skips_for op min max value ≡ true → compare_values op v value ≡ false
  unfolding op_to_index_op skips compare_values
  skips_for_lem op_eq h = unequal h
  skips_for_lem op_ne h = cc
  skips_for_lem op_lt h =
      less-key c v value hv hvalue
      ∙ AtMost-trans (key c value) (key c min) (key c v)
          (sym (less-key c min value hmin hvalue) ∙ ground (arith, h)) between.0
  skips_for_lem op_le h = ap not (less-key c value v hvalue hv ∙ below h)
  skips_for_lem op_gt h =
      less-key c value v hvalue hv
      ∙ AtMost-trans (key c v) (key c max) (key c value) between.1
          (sym (less-key c value max hvalue hmax) ∙ ground (arith, h))
  skips_for_lem op_ge h = ap not (less-key c v value hv hvalue ∙ above h)
  skips_for_lem _ h = refl
