-- ===== src/Query/Predicates/Comparisons.antt =====
-- What a comparison that holds says of its operands.
use test_db.Prelude.{
  true, false, not, ◌||◌, none, some, ◌≡◌, refl, sym, ap, ◌∙◌, arith, Bool-cases, inl, inr,
}
use test_db.Common.Types.{Value, new_bool, new_null}
use test_db.Common.Printing.{Runtime}
use test_db.Query.Compare.{
  BinaryOp, op_and, op_or, op_add, op_sub, op_mul, op_div, op_like, is_comparison_op,
  compare_values,
}
use test_db.Query.Arith.{Result, ok, err, ◌>>=◌}
use test_db.Query.Eval.{is_truthy_value, eval_binary_expr, eval_logical_op, eval_values}
use test_db.Query.Predicates.Conjuncts.{truthy-new_bool, truth}

module _ (rt : Runtime) where
  no_logic :
      (op : BinaryOp) (l : Value) (right : Result)
      → is_comparison_op op ≡ true
      → eval_logical_op op l right ≡ none
  unfolding is_comparison_op eval_logical_op
  no_logic op_and l right h = cc
  no_logic op_or l right h = cc
  no_logic _ l right h = refl

  null_values :
      (op : BinaryOp) (l r : Value)
      → (not l.valid || not r.valid) ≡ true
      → eval_values rt op l r ≡ ok new_null
  unfolding eval_values
  null_values op l r h = rw (h) refl

  truth-null : truth (ok new_null) ≡ false
  unfolding is_truthy_value new_null
  truth-null = refl

  both_valid :
      (op : BinaryOp) (l r : Value)
      → truth (eval_values rt op l r) ≡ true
      → (l.valid ≡ true) × (r.valid ≡ true)
  both_valid op l r h = elim (Bool-cases (not l.valid || not r.valid)) [
    | inl null ↦ absurd (cc (sym h ∙ ap truth (null_values op l r null) ∙ truth-null))
    | inr plain ↦ ground (arith, plain)
  ]

  compared_values :
      (op : BinaryOp) (l r : Value)
      → is_comparison_op op ≡ true
      → l.valid ≡ true
      → r.valid ≡ true
      → eval_values rt op l r ≡ ok (new_bool (compare_values op l r))
  unfolding is_comparison_op eval_values new_bool
  compared_values op_and l r h hl hr = cc
  compared_values op_or l r h hl hr = cc
  compared_values op_add l r h hl hr = cc
  compared_values op_sub l r h hl hr = cc
  compared_values op_mul l r h hl hr = cc
  compared_values op_div l r h hl hr = cc
  compared_values op_like l r h hl hr = cc
  compared_values _ l r h hl hr = rw (hl, hr) refl

  values_compare :
      (op : BinaryOp) (l r : Value)
      → is_comparison_op op ≡ true
      → truth (eval_values rt op l r) ≡ true
      → (l.valid ≡ true) × (r.valid ≡ true) × (compare_values op l r ≡ true)
  values_compare op l r h k =
      let (hl, hr) = both_valid op l r k in
      (
        hl,
        hr,
        sym (truthy-new_bool (compare_values op l r))
            ∙ ap truth (sym (compared_values op l r h hl hr))
            ∙ k,
      )

  abbrev pub Compared : BinaryOp → Result → Result → Type 0
  Compared op left right =
      (l : Value) × (r : Value) × (left ≡ ok l)
      × (right ≡ ok r)
      × (l.valid ≡ true)
      × (r.valid ≡ true)
      × (compare_values op l r ≡ true)

  without_logic :
      (op : BinaryOp) (l : Value) (right : Result)
      → is_comparison_op op ≡ true
      → eval_binary_expr rt op (ok l) right ≡ (right >>= λ r. eval_values rt op l r)
  unfolding eval_binary_expr
  without_logic op l right h =
      ap (λ o. elim o [ some result ↦ result | none ↦ right >>= λ r. eval_values rt op l r ])
        (no_logic op l right h)

  pub results_compare :
      (op : BinaryOp) (left right : Result)
      → is_comparison_op op ≡ true
      → truth (eval_binary_expr rt op left right) ≡ true
      → Compared op left right
  results_compare op (ok l) (ok r) h k =
      let (hl, hr, c) =
        values_compare op l r h (ap truth (sym (without_logic op l (ok r) h)) ∙ k) in
      (l, r, refl, refl, hl, hr, c)
  results_compare op (ok l) (err x) h k =
      absurd (ground (arith, ap truth (without_logic op l (err x) h), k))
  results_compare op (err x) right h k = absurd (unfold eval_binary_expr in cc (k))
