-- ===== src/Query/Predicates/References.antt =====
-- The columns that a conjunction refers to.
use test_db.Prelude.{
  Bool, true, false, not, ◌||◌, some, List, [], ◌∷◌, ◌≡◌, refl, ap, arith, Str, All, str_eq,
  eq_of_str_eq, Bool-cases, inl, inr,
}
use test_db.Query.Compare.{op_and}
use test_db.Query.Ast.{
  Expression, column_expr, resolved_column_expr, literal_expr, binary_expr, unary_expr, func_expr,
  star_expr, Args, no_args, and_arg,
}
use test_db.Query.Predicates.{
  named, see, any_named, collect_column_refs_into, collect_args, merge_from, merge_conjuncts,
  can_push,
}

module _ (names : List Str) where
  any_named-seen :
      (name : Str) (seen : List Str)
      → named name seen ≡ true
      → any_named seen names ≡ (named name names || any_named seen names)
  unfolding named any_named
  any_named-seen name [] h = cc
  any_named-seen name (x ∷ xs) h = elim (Bool-cases (str_eq x name)) [
    | inl same ↦ ground (arith, ap (λ y. named y names) (eq_of_str_eq x name same))
    | inr other ↦ ground (arith, h, other, any_named-seen name xs)
  ]

  any_named-see :
      (name : Str) (seen : List Str)
      → any_named (see name seen) names ≡ (named name names || any_named seen names)
  unfolding see any_named
  any_named-see name seen = ground (arith, any_named-seen name seen)

  mutual
    -- Whether an expression refers to one of the names.
    mentions : Expression → Bool
    mentions (column_expr name t) = named name names
    mentions (resolved_column_expr name i t) = named name names
    mentions (binary_expr op l r) = mentions l || mentions r
    mentions (unary_expr op e) = mentions e
    mentions (func_expr name args) = mentions_args args
    mentions (literal_expr v) = false
    mentions star_expr = false

    mentions_args : Args → Bool
    mentions_args no_args = false
    mentions_args (and_arg e es) = mentions e || mentions_args es

  mutual
    unfolding mentions collect_column_refs_into

    any_named-collect :
        (e : Expression) (seen : List Str)
        → any_named (collect_column_refs_into e seen) names ≡ (mentions e || any_named seen names)
    any_named-collect (column_expr name t) seen = any_named-see name seen
    any_named-collect (resolved_column_expr name i t) seen = any_named-see name seen
    any_named-collect (binary_expr op l r) seen =
        ground
          (arith, any_named-collect r (collect_column_refs_into l seen), any_named-collect l seen)
    any_named-collect (unary_expr op e) seen = any_named-collect e seen
    any_named-collect (func_expr name args) seen = any_named-args args seen
    any_named-collect (literal_expr v) seen = refl
    any_named-collect star_expr seen = refl

    any_named-args :
        (es : Args) (seen : List Str)
        → any_named (collect_args es seen) names ≡ (mentions_args es || any_named seen names)
    any_named-args no_args seen = refl
    any_named-args (and_arg e es) seen =
        ground
          (arith, any_named-args es (collect_column_refs_into e seen), any_named-collect e seen)

  can_push-mentions : (e : Expression) → can_push names e ≡ not (mentions e)
  unfolding can_push any_named
  can_push-mentions e = ground (arith, any_named-collect e [])

  can_push-and :
      (l r : Expression)
      → can_push names l ≡ true
      → can_push names r ≡ true
      → can_push names (binary_expr op_and l r) ≡ true
  unfolding mentions
  can_push-and l r h k = ground (
    arith,
    h,
    k,
    can_push-mentions l,
    can_push-mentions r,
    can_push-mentions (binary_expr op_and l r),
  )

  can_push-merge_from :
      (e : Expression) (cs : List Expression)
      → can_push names e ≡ true
      → All (λ c. can_push names c ≡ true) cs
      → can_push names (merge_from e cs) ≡ true
  unfolding merge_from
  can_push-merge_from e [] h k = h
  can_push-merge_from e (c ∷ cs) h k =
      can_push-merge_from (binary_expr op_and e c) cs (can_push-and e c h k.0) k.1

  pub can_push-merge :
      (cs : List Expression) (e : Expression)
      → All (λ c. can_push names c ≡ true) cs
      → merge_conjuncts cs ≡ some e
      → can_push names e ≡ true
  unfolding merge_conjuncts
  can_push-merge [] e h k = cc
  can_push-merge (c ∷ cs) e h k = ground (arith, k, can_push-merge_from c cs h.0 h.1)
