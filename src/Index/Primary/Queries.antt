-- ===== src/Index/Primary/Queries.antt =====
-- Registration keeps the index ascending, and each query sees exactly what is registered.
use mathlib.Core.List.{Perm, reverse_perm, perm_append_comm}
use mathlib.Core.List.Perm
use mathlib.Core.Path.{subst}
use test_db.Prelude.{
  ℕ, ◌≡◌, refl, sym, Bool, Option, none, List, [], ◌∷◌, ◌++◌, ◌⊎◌, inl, inr, arith, filter, Str,
  if◌then◌else◌, filter-perm, ◌==◌,
}
use test_db.Index.Primary.{
  SegmentMeta, Error, SliceSort, IsAscending, register_segment, unregister_segment, covers, lookup,
  clear,
}
use test_db.Index.Primary.Sorted.{AllFrom, ids, lookup-filter}

-- Every operation that changes the index.
pub data Op : Type 0 where
  register : SegmentMeta → Op
  unregister : ℕ → Op
  reset : Op

module _ (sorter : SliceSort) where
  unfoldable pub apply : Op → List SegmentMeta → Option Error × List SegmentMeta
  apply (register seg) segs = register_segment sorter seg segs
  apply (unregister id) segs = unregister_segment id segs
  apply reset segs = (none, clear segs)

  unfoldable pub run : List Op → List SegmentMeta → List SegmentMeta
  unfolding apply
  run [] segs = segs
  run (op ∷ ops) segs = run ops (apply op segs).1

  register_cases :
      (seg : SegmentMeta) (segs : List SegmentMeta)
      → ((register_segment sorter seg segs).1 ≡ segs)
        ⊎ ((register_segment sorter seg segs).1 ≡ sorter.sort (segs ++ seg ∷ []))
  unfolding register_segment
  register_cases seg segs = ground arith

  register_ok :
      (seg : SegmentMeta) (segs : List SegmentMeta)
      → (register_segment sorter seg segs).0 ≡ none
      → (register_segment sorter seg segs).1 ≡ sorter.sort (segs ++ seg ∷ [])
  unfolding register_segment
  register_ok seg segs h = ground arith

  register-IsAscending :
      (seg : SegmentMeta) (segs : List SegmentMeta)
      → IsAscending segs
      → IsAscending (register_segment sorter seg segs).1
  register-IsAscending seg segs s = elim (register_cases seg segs) [
    | inl same ↦ subst IsAscending (sym same) s
    | inr more ↦ subst IsAscending (sym more) (sorter.sort-IsAscending (segs ++ seg ∷ []))
  ]

-- What is left when the first segment of an ID goes.
unfoldable pub drop_id : ℕ → List SegmentMeta → List SegmentMeta
drop_id id [] = []
drop_id id (x ∷ xs) = if x.id == id then xs else x ∷ drop_id id xs

unregister_cases :
    (id : ℕ) (xs : List SegmentMeta)
    → ((unregister_segment id xs).1 ≡ xs) ⊎ ((unregister_segment id xs).1 ≡ drop_id id xs)
unfolding unregister_segment drop_id
unregister_cases id [] = inl refl
unregister_cases id (x ∷ xs) = ground (arith, unregister_cases id xs)

drop_id-AllFrom :
    (id : ℕ) (k : Str) (xs : List SegmentMeta) → AllFrom k xs → AllFrom k (drop_id id xs)
unfolding drop_id
drop_id-AllFrom id k [] a = tt
drop_id-AllFrom id k (x ∷ xs) a = ground (arith, drop_id-AllFrom id k xs a.1)

drop_id-IsAscending :
    (id : ℕ) (xs : List SegmentMeta) → IsAscending xs → IsAscending (drop_id id xs)
unfolding drop_id
drop_id-IsAscending id [] s = tt
drop_id-IsAscending id (x ∷ xs) s =
    ground (arith, drop_id-AllFrom id x.min_key xs s.0, drop_id-IsAscending id xs s.1)

unregister-IsAscending :
    (id : ℕ) (xs : List SegmentMeta) → IsAscending xs → IsAscending (unregister_segment id xs).1
unregister-IsAscending id xs s = elim (unregister_cases id xs) [
  | inl same ↦ subst IsAscending (sym same) s
  | inr less ↦ subst IsAscending (sym less) (drop_id-IsAscending id xs s)
]

ids-filter_head :
    (p : SegmentMeta → Bool) (x : SegmentMeta) (xs : List SegmentMeta)
    → ids (filter p (x ∷ xs)) ≡ ids (filter p (x ∷ [])) ++ ids (filter p xs)
ids-filter_head p x xs = ground arith

module _ (sorter : SliceSort) where
  apply-IsAscending :
      (op : Op) (segs : List SegmentMeta) → IsAscending segs → IsAscending (apply sorter op segs).1
  unfolding apply
  apply-IsAscending (register seg) segs s = register-IsAscending sorter seg segs s
  apply-IsAscending (unregister id) segs s = unregister-IsAscending id segs s
  apply-IsAscending reset segs s = unfold clear in tt

  -- Whatever operations run, failing or not, and whichever order the sort gives segments of one
  -- minimum key, an ascending index stays ascending.
  pub run-IsAscending :
      (ops : List Op) (segs : List SegmentMeta)
      → IsAscending segs
      → IsAscending (run sorter ops segs)
  unfolding run
  run-IsAscending [] segs s = s
  run-IsAscending (op ∷ ops) segs s = run-IsAscending ops _ (apply-IsAscending op segs s)

  -- What a query finds, before its order is fixed.
  hits-perm :
      (key : Str) (segs : List SegmentMeta)
      → IsAscending segs
      → Perm (lookup key segs) (ids (filter (covers key) segs))
  hits-perm key segs s =
      rw (lookup-filter key segs s) (reverse_perm (ids (filter (covers key) segs)))

  -- After a registration that succeeds, a point query on an ascending index finds what it found
  -- before and, exactly if its range holds the key, the new segment; the order is not fixed.
  pub lookup-register :
      (seg : SegmentMeta) (segs : List SegmentMeta) (key : Str)
      → IsAscending segs
      → (register_segment sorter seg segs).0 ≡ none
      → Perm
          (lookup key (register_segment sorter seg segs).1)
          (ids (filter (covers key) (seg ∷ [])) ++ lookup key segs)
  lookup-register seg segs key s done =
      let whole = sorter.sort-perm (segs ++ seg ∷ []) in
      let moved = Perm.trans whole (perm_append_comm segs (seg ∷ [])) in
      let ids_of = λ (x : SegmentMeta). x.id in
      let after =
        subst (λ l. Perm (ids (filter (covers key) l)) (ids (filter (covers key) (seg ∷ segs))))
          (sym (register_ok sorter seg segs done))
          (Perm.map ids_of (filter-perm (covers key) moved)) in
      let split = subst (Perm _) (ids-filter_head (covers key) seg segs) after in
      Perm.trans (hits-perm key _ (register-IsAscending sorter seg segs s))
        (Perm.trans split (Perm.append_left _ (Perm.symm (hits-perm key segs s))))
