-- ===== src/Index/Sparse/Stats.antt =====
-- What BuildFromColumnVector records of a column, and that skipping by it loses no row.
use mathlib.Core.Path.{subst}
use test_db.Prelude.{
  ℕ, zero, suc, ◌+◌, ◌%◌, ◌^◌, ◌≡◌, refl, sym, ap, ◌∙◌, Bool, true, false, ◌||◌, none, some, [],
  ◌∷◌, get_elem?, arith, Bool-cases, ◌⊎◌, inl, inr, AtMost-trans,
}
use test_db.Common.Types.{Value, is_null}
use test_db.Index.Sparse.{
  PredicateOp, ColumnSparseStat, Stats, Column, empty_stat, is_key, put_stat, get_column_stat,
  add_value, build_loop, build_from_column_vector, can_skip, skips,
}
use test_db.Index.Sparse.Order.{Class, Belongs, key}
use test_db.Index.Sparse.Skip.{Between, skips_for, skips_for_lem}
use test_db.Query.Compare.{BinaryOp, compare_values, op_to_index_op}
use test_db.Index.Sparse.Bounds.{
  AllBelong, Spans, Wider, Wider-refl, Wider-trans, add_value_lem, add_value-Wider,
}

-- Statistics that are empty, or have bounds of the class.
abbrev Ready : Class → ColumnSparseStat → Type 0
Ready c s = (s.has_values ≡ false) ⊎ Spans c s

-- A value that the loop counts in belongs to the class.
counted : (c : Class) (v : Value) (b : Bool) → (b ≡ true) ⊎ Belongs c v → b ≡ false → Belongs c v
counted c v b (inr h) no_null = h
counted c v b (inl h) no_null = absurd (ground (arith, h, no_null))

build_loop-Wider :
    (c : Class) (rows : Column) (s : ColumnSparseStat)
    → AllBelong c rows
    → Spans c s
    → Spans c (build_loop rows s) × Wider c s (build_loop rows s)
unfolding build_loop
build_loop-Wider c [] s h k = (k, Wider-refl c s)
build_loop-Wider c ((flagged, v) ∷ rows) s h k = elim (Bool-cases (flagged || is_null v)) [
  | inl skipped ↦
      rw (skipped)
        (build_loop-Wider c rows (record s { null_count = (s.null_count + 1) % 2 ^ 32 }) h.1 k)
  | inr taken ↦
      let hv = counted c v (flagged || is_null v) h.0 taken in
      let rest = build_loop-Wider c rows (add_value v s) h.1 (add_value_lem c v s hv (inr k)).0 in
      rw (taken) (
        rest.0,
        Wider-trans c s (add_value v s) (build_loop rows (add_value v s))
            (add_value-Wider c v s hv k) rest.1,
      )
]

-- A value that the loop meets.
first_value :
    (c : Class) (v : Value) (rows : Column) (s : ColumnSparseStat)
    → Belongs c v
    → AllBelong c rows
    → Ready c s
    → let r = build_loop rows (add_value v s) in Spans c r × Between c r.min_value r.max_value v
first_value c v rows s hv h k =
    let one = add_value_lem c v s hv k in
    let rest = build_loop-Wider c rows (add_value v s) h one.0 in
    let s' = add_value v s in
    let r = build_loop rows s' in
    (
      rest.0,
      (
        AtMost-trans (key c r.min_value) (key c s'.min_value) (key c v) rest.1.0 one.1.0,
        AtMost-trans (key c v) (key c s'.max_value) (key c r.max_value) one.1.1 rest.1.1,
      ),
    )

build_loop-Between :
    (c : Class) (rows : Column) (s : ColumnSparseStat) (i : ℕ) (v : Value)
    → AllBelong c rows
    → Ready c s
    → get_elem? rows i ≡ some (false, v)
    → is_null v ≡ false
    → Spans c (build_loop rows s)
      × Between c (build_loop rows s).min_value (build_loop rows s).max_value v
unfolding build_loop
build_loop-Between c [] s i v h k e n = cc
build_loop-Between c ((flagged, w) ∷ rows) s zero v h k e n =
    let plain : flagged ≡ false = ap (λ o. elim o [ none ↦ true | some p ↦ p.0 ]) e in
    let same : w ≡ v = ap (λ o. elim o [ none ↦ w | some p ↦ p.1 ]) e in
    let taken : (flagged || is_null w) ≡ false =
      ap (λ f. f || is_null w) plain ∙ ap is_null same ∙ n in
    let hw = counted c w (flagged || is_null w) h.0 taken in
    rw (taken) (
      subst
        (λ x.
          Spans c (build_loop rows (add_value w s))
          × Between c (build_loop rows (add_value w s)).min_value
              (build_loop rows (add_value w s)).max_value x)
        same (first_value c w rows s hw h.1 k))
build_loop-Between c ((flagged, w) ∷ rows) s (suc i) v h k e n =
    elim (Bool-cases (flagged || is_null w)) [
      | inl skipped ↦ rw (skipped) (
          build_loop-Between c rows (record s { null_count = (s.null_count + 1) % 2 ^ 32 }) i v h.1
            k e n)
      | inr taken ↦
          let hw = counted c w (flagged || is_null w) h.0 taken in
          rw (taken) (
            build_loop-Between c rows (add_value w s) i v h.1 (inr (add_value_lem c w s hw k).0) e
              n)
    ]

found_stat :
    (seg col : ℕ) (stat : ColumnSparseStat) (stats : Stats)
    → get_column_stat seg col (put_stat seg col stat stats) ≡ some stat
unfolding get_column_stat put_stat is_key
found_stat seg col stat [] = ground arith
found_stat seg col stat ((k, s) ∷ stats) = ground (arith, found_stat seg col stat stats)

member-Belongs :
    (c : Class) (rows : Column) (i : ℕ) (v : Value)
    → AllBelong c rows
    → get_elem? rows i ≡ some (false, v)
    → is_null v ≡ false
    → Belongs c v
member-Belongs c [] i v h e n = cc
member-Belongs c ((flagged, w) ∷ rows) zero v h e n =
    let plain : flagged ≡ false = ap (λ o. elim o [ none ↦ true | some p ↦ p.0 ]) e in
    let same : w ≡ v = ap (λ o. elim o [ none ↦ w | some p ↦ p.1 ]) e in
    subst (Belongs c) same (
      counted c w (flagged || is_null w) h.0 (ap (λ f. f || is_null w) plain ∙ ap is_null same ∙ n))
member-Belongs c ((flagged, w) ∷ rows) (suc i) v h e n = member-Belongs c rows i v h.1 e n

-- On a column of values of one class (the integer types, floats other than NaN, strings, bools or
-- timestamps) and NULLs, the statistics that are built let a segment be skipped for a comparison with
-- a value of that class only if the comparison fails for every value of the column that is not NULL.
pub can_skip-build :
    (c : Class) (op : BinaryOp) (p : PredicateOp) (value : Value) (seg col : ℕ) (rows : Column)
    (stats : Stats) (i : ℕ) (v : Value)
    → AllBelong c rows
    → Belongs c value
    → op_to_index_op op ≡ some p
    → can_skip seg col p value (build_from_column_vector seg col rows stats) ≡ true
    → get_elem? rows i ≡ some (false, v)
    → is_null v ≡ false
    → compare_values op v value ≡ false
unfolding can_skip build_from_column_vector
can_skip-build c op p value seg col [] stats i v h hvalue ep skip e n = cc
can_skip-build c op p value seg col (r ∷ rows) stats i v h hvalue ep skip e n =
    let stat = build_loop (r ∷ rows) (empty_stat 0) in
    let ends = build_loop-Between c (r ∷ rows) (empty_stat 0) i v h (inl refl) e n in
    let found : can_skip seg col p value (put_stat seg col stat stats)
        ≡ skips p stat.min_value stat.max_value value =
      ground (arith, found_stat seg col stat stats, ends.0.0) in
    let asked : skips_for op stat.min_value stat.max_value value ≡ true =
      ap (λ o. elim o [ none ↦ false | some q ↦ skips q stat.min_value stat.max_value value ]) ep
      ∙ sym found
      ∙ skip in
    skips_for_lem c stat.min_value stat.max_value value v ends.0.1 ends.0.2 hvalue
      (member-Belongs c (r ∷ rows) i v h e n) ends.1 op asked
