-- ===== src/Query/Predicates/Pruning.antt =====
-- What the comparisons taken out of WHERE say of a row that it accepts.
use mathlib.Core.Path.{subst}
use test_db.Prelude.{
  ℕ, Bool, true, false, Option, none, some, List, [], ◌∷◌, ◌≡◌, refl, sym, ap, ◌∙◌, arith, Str, All,
  All-get_elem?, Bool-cases, Option-cases, inl, inr, find, get_elem?, if◌then◌else◌,
}
use test_db.Common.Types.{Value, new_null, is_null}
use test_db.Common.Printing.{Runtime}
use test_db.Query.Compare.{
  BinaryOp, is_comparison_op, op_to_index_op, flip_comparison_op, compare_values,
}
use test_db.Query.Compare.Flip.{compare_values-flip}
use test_db.Query.Ast.{Expression, column_expr, resolved_column_expr, literal_expr, binary_expr}
use test_db.Query.Arith.{ok}
use test_db.Query.Eval.{RowValues, eval_expr, eval_column, eval_row_predicate}
use test_db.Query.Predicates.{
  ColumnPredicate, split_conjuncts, column_ref_name, literal_value, indexed, from_left, from_right,
  conjunct_predicate, collect_predicates, extract_column_predicates,
}
use test_db.Query.Predicates.Conjuncts.{holds, all_hold, all_hold-split}
use test_db.Query.Predicates.Comparisons.{results_compare}
use test_db.Index.Sparse.{Column, Stats, can_skip, build_from_column_vector}
use test_db.Index.Sparse.Order.{Class, Belongs}
use test_db.Index.Sparse.Bounds.{AllBelong}
use test_db.Index.Sparse.Stats.{can_skip-build}

module _ (row : RowValues) where
  -- The row's column is not NULL, and the comparison holds of it.
  pub record IsMet (p : ColumnPredicate) : Type 0 where
    pub value : Value
    pub op : BinaryOp
    pub there : find p.column_name row ≡ some value
    pub valid : value.valid ≡ true
    pub mapped : op_to_index_op op ≡ some p.op
    pub compared : compare_values op value p.value ≡ true

module _ (rt : Runtime) (row : RowValues) where
  found :
      (key name : Str) (v : Value)
      → key ≡ name
      → eval_column key row ≡ ok v
      → v.valid ≡ true
      → find name row ≡ some v
  unfolding eval_column new_null
  found key name v same k hv = elim (Option-cases (find key row)) [
    | inl none_there ↦ absurd (ground (arith, k, none_there, hv))
    | inr (w, there) ↦ ground (arith, sym (ap (λ n. find n row) same), there, k)
  ]

  -- What a column's name, or a literal, says of the value that it gives.
  column_value :
      (e : Expression) (name : Str) (v : Value)
      → column_ref_name e ≡ some name
      → eval_expr rt e row ≡ ok v
      → v.valid ≡ true
      → find name row ≡ some v
  unfolding column_ref_name eval_expr
  column_value (column_expr (x ∷ xs) t) name v h k hv = found (x ∷ xs) name v (cc h) k hv
  column_value (resolved_column_expr (x ∷ xs) i t) name v h k hv = found (x ∷ xs) name v (cc h) k hv
  column_value _ name v h k hv = cc

  literal_lem :
      (e : Expression) (v w : Value) → literal_value e ≡ some v → eval_expr rt e row ≡ ok w → w ≡ v
  unfolding literal_value eval_expr
  literal_lem (literal_expr u) v w h k = ground (arith, h, k)
  literal_lem _ v w h k = cc

  indexed_lem :
      (name : Str) (op : BinaryOp) (v : Value) (p : ColumnPredicate)
      → indexed name op v ≡ some p
      → (op_to_index_op op ≡ some p.op) × (p.column_name ≡ name) × (p.value ≡ v)
  unfolding indexed
  indexed_lem name op v p h = elim (Option-cases (op_to_index_op op)) [
    | inl e ↦ absurd (ground (arith, e, h))
    | inr (q, e) ↦ ground (arith, e, h)
  ]

  -- A comparison that the row passes, as a predicate of the index.
  indexed-IsMet :
      (name : Str) (op : BinaryOp) (v w : Value) (p : ColumnPredicate)
      → indexed name op v ≡ some p
      → find name row ≡ some w
      → w.valid ≡ true
      → compare_values op w v ≡ true
      → IsMet row p
  indexed-IsMet name op v w p h there hw c =
      let (mapped, same, value) = indexed_lem name op v p h in
      record {
        value = w;
        op = op;
        there = subst (λ n. find n row ≡ some w) (sym same) there;
        valid = hw;
        mapped = mapped;
        compared = subst (λ x. compare_values op w x ≡ true) (sym value) c;
      }

  flipped-IsMet :
      (name : Str) (op : BinaryOp) (v w : Value) (p : ColumnPredicate)
      → from_right op (some name) (some v) ≡ some p
      → find name row ≡ some w
      → w.valid ≡ true
      → compare_values op v w ≡ true
      → IsMet row p
  unfolding from_right
  flipped-IsMet name op v w p h there hw c = elim (Option-cases (flip_comparison_op op)) [
    | inl e ↦ absurd (ground (arith, e, h))
    | inr (flipped, e) ↦
        indexed-IsMet name flipped v w p (ground (arith, e, h)) there hw
          (compare_values-flip op flipped v w e ∙ c)
  ]

  -- The names and the literals of both operands, with the values that the operands have.
  module _ (op : BinaryOp) (l r : Value) (p : ColumnPredicate) (hl : l.valid ≡ true)
      (hr : r.valid ≡ true) (c : compare_values op l r ≡ true) where
    operands-IsMet :
        (name_l name_r : Option Str) (value_l value_r : Option Value)
        → ((n : Str) → name_l ≡ some n → find n row ≡ some l)
        → ((n : Str) → name_r ≡ some n → find n row ≡ some r)
        → ((v : Value) → value_l ≡ some v → l ≡ v)
        → ((v : Value) → value_r ≡ some v → r ≡ v)
        → from_left op name_l value_r (from_right op name_r value_l) ≡ some p
        → IsMet row p
    unfolding from_left from_right
    operands-IsMet (some n) name_r value_l (some v) nl nr vl vr h =
        indexed-IsMet n op v l p h (nl n refl) hl
          (subst (λ x. compare_values op l x ≡ true) (vr v refl) c)
    operands-IsMet none (some n) (some v) value_r nl nr vl vr h =
        flipped-IsMet n op v r p h (nr n refl) hr
          (subst (λ x. compare_values op x r ≡ true) (vl v refl) c)
    operands-IsMet (some m) (some n) (some v) none nl nr vl vr h =
        flipped-IsMet n op v r p h (nr n refl) hr
          (subst (λ x. compare_values op x r ≡ true) (vl v refl) c)
    operands-IsMet _ _ _ _ nl nr vl vr h = cc

  conjunct-IsMet :
      (c : Expression) (p : ColumnPredicate)
      → conjunct_predicate c ≡ some p
      → holds rt row c ≡ true
      → IsMet row p
  unfolding conjunct_predicate eval_row_predicate eval_expr
  conjunct-IsMet (binary_expr op l r) p h k = elim (Bool-cases (is_comparison_op op)) [
    | inr other ↦ absurd (ground (arith, other, h))
    | inl compares ↦
        let (lv, rv, el, er, hl, hr, c) =
          results_compare rt op (eval_expr rt l row) (eval_expr rt r row) compares k in
        operands-IsMet op lv rv p hl hr c (column_ref_name l) (column_ref_name r) (literal_value l)
          (literal_value r) (λ n e. column_value l n lv e el hl)
          (λ n e. column_value r n rv e er hr) (λ v e. literal_lem l v lv e el)
          (λ v e. literal_lem r v rv e er) (ground (arith, compares, h))
  ]
  conjunct-IsMet _ p h k = cc

  collected-IsMet :
      (cs : List Expression) → all_hold rt row cs ≡ true → All (IsMet row) (collect_predicates cs)
  unfolding collect_predicates
  collected-IsMet [] h = tt
  collected-IsMet (c ∷ cs) h =
      let parts : (holds rt row c ≡ true) × (all_hold rt row cs ≡ true) = ground (arith, h) in
      elim (Option-cases (conjunct_predicate c)) [
        | inl e ↦ rw (e) (collected-IsMet cs parts.1)
        | inr (p, e) ↦ rw (e) (conjunct-IsMet c p e parts.0, collected-IsMet cs parts.1)
      ]

-- Where WHERE accepts a row, each comparison that is taken out of it holds of the row: the column is
-- there, it is not NULL, and it compares with the value under the operator.
pub extract_column_predicates-IsMet :
    (rt : Runtime) (cond : Option Expression) (row : RowValues)
    → eval_row_predicate rt cond row ≡ true
    → All (IsMet row) (extract_column_predicates cond)
unfolding extract_column_predicates
extract_column_predicates-IsMet rt none row h = tt
extract_column_predicates-IsMet rt (some e) row h =
    collected-IsMet rt row (split_conjuncts e) (all_hold-split rt row e ∙ h)

null_invalid : new_null.valid ≡ false
unfolding new_null
null_invalid = refl

-- A column's value at a row, by its bit in the bitmap of NULLs.
abbrev pub get_value : Bool × Value → Value
get_value (flagged, v) = if flagged then new_null else v

not_met :
    (c : Class) (op : BinaryOp) (p : ColumnPredicate) (seg col : ℕ) (rows : Column) (stats : Stats)
    (i : ℕ) (cell : Bool × Value) (v : Value)
    → AllBelong c rows
    → Belongs c p.value
    → op_to_index_op op ≡ some p.op
    → can_skip seg col p.op p.value (build_from_column_vector seg col rows stats) ≡ true
    → get_elem? rows i ≡ some cell
    → get_value cell ≡ v
    → v.valid ≡ true
    → compare_values op v p.value ≡ true
    → ⊥
not_met c op p seg col rows stats i (true, w) v h hv mapped skip e same valid compared =
    cc (sym valid ∙ ap (λ (x : Value). x.valid) (sym same) ∙ null_invalid)
not_met c op p seg col rows stats i (false, w) v h hv mapped skip e same valid compared =
    let found : get_elem? rows i ≡ some (false, v) = e ∙ ap (λ x. some (false, x)) same in
    let fails =
      can_skip-build c op p.op p.value seg col rows stats i v h hv mapped skip found
        (unfold is_null in rw (valid) refl) in
    cc (sym compared ∙ fails)

-- A segment that is skipped for a comparison taken out of WHERE has no row that WHERE accepts: on a
-- column of values of one class and NULLs, with the statistics that are built from it, and where the
-- literal of the comparison belongs to the same class, every row with that column's value is refused.
pub skipped_segment :
    (rt : Runtime) (cond : Option Expression) (row : RowValues) (j : ℕ) (p : ColumnPredicate)
    (c : Class) (seg col : ℕ) (rows : Column) (stats : Stats) (i : ℕ) (cell : Bool × Value)
    → get_elem? (extract_column_predicates cond) j ≡ some p
    → AllBelong c rows
    → Belongs c p.value
    → can_skip seg col p.op p.value (build_from_column_vector seg col rows stats) ≡ true
    → get_elem? rows i ≡ some cell
    → find p.column_name row ≡ some (get_value cell)
    → eval_row_predicate rt cond row ≡ false
skipped_segment rt cond row j p c seg col rows stats i cell hp h hv skip e there =
    elim (Bool-cases (eval_row_predicate rt cond row)) [
      | inr refused ↦ refused
      | inl accepted ↦
          let m =
            All-get_elem? (IsMet row) (extract_column_predicates cond) j p
              (extract_column_predicates-IsMet rt cond row accepted) hp in
          absurd (
            not_met c m.op p seg col rows stats i cell m.value h hv m.mapped skip e
              (cc (sym there ∙ m.there)) m.valid m.compared)
    ]
