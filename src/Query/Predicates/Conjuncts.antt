-- ===== src/Query/Predicates/Conjuncts.antt =====
-- The conjuncts of a condition hold together exactly where the condition holds.
use test_db.Prelude.{
  Bool, true, false, not, ◌&&◌, some, List, [], ◌∷◌, ◌++◌, ◌≡◌, refl, sym, ap, ◌∙◌, arith, Str,
  filter, All-filter, Bool-cases, inl, inr,
}
use test_db.Common.Types.{Value, new_bool}
use test_db.Common.Printing.{Runtime}
use test_db.Query.Compare.{op_and}
use test_db.Query.Ast.{Expression, binary_expr}
use test_db.Query.Arith.{Result, ok, err}
use test_db.Query.Eval.{
  RowValues, eval_expr, eval_row_predicate, is_truthy_value, eval_binary_expr, eval_logical_op,
}
use test_db.Query.Predicates.References.{can_push-merge}
use test_db.Query.Predicates.{
  split_conjuncts, merge_from, merge_conjuncts, can_push, split_predicate_by_aggregate,
}

and-true : (b : Bool) → (b && true) ≡ b
and-true true = refl
and-true false = refl

-- What a result says of a condition.
abbrev pub truth : Result → Bool
truth r = elim r [ ok v ↦ is_truthy_value v | err x ↦ false ]

pub truthy-new_bool : (b : Bool) → is_truthy_value (new_bool b) ≡ b
unfolding is_truthy_value new_bool
truthy-new_bool true = refl
truthy-new_bool false = refl

module _ (rt : Runtime) (row : RowValues) where
  abbrev pub holds : Expression → Bool
  holds e = eval_row_predicate rt (some e) row

  -- The right operand of AND, after a left one with the value `v`.
  and_right :
      (v : Value) (right : Result)
      → truth (eval_binary_expr rt op_and (ok v) right) ≡ (is_truthy_value v && truth right)
  unfolding eval_binary_expr eval_logical_op
  and_right v (ok w) = elim (Bool-cases (is_truthy_value v)) [
    | inl t ↦ rw (t, truthy-new_bool (is_truthy_value w)) refl
    | inr f ↦ rw (f, truthy-new_bool false) refl
  ]
  and_right v (err x) = elim (Bool-cases (is_truthy_value v)) [
    | inl t ↦ rw (t) refl
    | inr f ↦ rw (f, truthy-new_bool false) refl
  ]

  truth-and :
      (left right : Result)
      → truth (eval_binary_expr rt op_and left right) ≡ (truth left && truth right)
  unfolding eval_binary_expr
  truth-and (ok v) right = and_right v right
  truth-and (err x) right = refl

  abbrev pub all_hold : List Expression → Bool
  all_hold [] = true
  all_hold (e ∷ es) = holds e && all_hold es

  holds-and : (l r : Expression) → holds (binary_expr op_and l r) ≡ (holds l && holds r)
  unfolding eval_row_predicate eval_expr
  holds-and l r = truth-and (eval_expr rt l row) (eval_expr rt r row)

  all_hold-append : (es fs : List Expression) → all_hold (es ++ fs) ≡ (all_hold es && all_hold fs)
  all_hold-append [] fs = refl
  all_hold-append (e ∷ es) fs = ground (arith, all_hold-append es fs)

  pub all_hold-split : (e : Expression) → all_hold (split_conjuncts e) ≡ holds e
  unfolding split_conjuncts
  all_hold-split (binary_expr op_and l r) =
      all_hold-append (split_conjuncts l) (split_conjuncts r)
      ∙ ap (λ b. b && all_hold (split_conjuncts r)) (all_hold-split l)
      ∙ ap (λ b. holds l && b) (all_hold-split r)
      ∙ sym (holds-and l r)
  all_hold-split e = and-true (holds e)

  all_hold-merge_from :
      (e : Expression) (cs : List Expression) → holds (merge_from e cs) ≡ (holds e && all_hold cs)
  unfolding merge_from
  all_hold-merge_from e [] = sym (and-true (holds e))
  all_hold-merge_from e (c ∷ cs) =
      all_hold-merge_from (binary_expr op_and e c) cs ∙ ground (arith, holds-and e c)

  pub all_hold-merge :
      (cs : List Expression) → eval_row_predicate rt (merge_conjuncts cs) row ≡ all_hold cs
  unfolding merge_conjuncts
  all_hold-merge [] = unfold eval_row_predicate in refl
  all_hold-merge (c ∷ cs) = all_hold-merge_from c cs

  all_hold-parts :
      (p : Expression → Bool) (cs : List Expression)
      → all_hold cs ≡ (all_hold (filter p cs) && all_hold (filter (λ c. not (p c)) cs))
  all_hold-parts p [] = refl
  all_hold-parts p (c ∷ cs) = ground (arith, all_hold-parts p cs)

-- A condition holds on a row exactly where both parts of it hold, the one that is moved below an
-- aggregation and the one that stays above, an absent part counting as true; and the part that is
-- moved refers to no column that the aggregation gives.
pub split_predicate-holds :
    (rt : Runtime) (row : RowValues) (cond : Expression) (agg_cols : List Str)
    → (eval_row_predicate rt (some cond) row ≡ (
        eval_row_predicate rt (split_predicate_by_aggregate cond agg_cols).0 row
        && eval_row_predicate rt (split_predicate_by_aggregate cond agg_cols).1 row))
      × ((e : Expression)
          → (split_predicate_by_aggregate cond agg_cols).0 ≡ some e
          → can_push agg_cols e ≡ true)
unfolding split_predicate_by_aggregate
split_predicate-holds rt row cond agg_cols =
    let cs = split_conjuncts cond in
    let pushed = filter (can_push agg_cols) cs in
    let kept = filter (λ (c : Expression). not (can_push agg_cols c)) cs in
    (
      sym (all_hold-split rt row cond)
          ∙ all_hold-parts rt row (can_push agg_cols) cs
          ∙ ap (λ b. b && all_hold rt row kept) (sym (all_hold-merge rt row pushed))
          ∙ ap (λ b. eval_row_predicate rt (merge_conjuncts pushed) row && b)
              (sym (all_hold-merge rt row kept)),
      λ e h. can_push-merge agg_cols pushed e (All-filter (can_push agg_cols) cs) h,
    )
