-- ===== src/Storage/Lsm/Compaction/Merging.antt =====
-- The merged rows of several segments.
use mathlib.Core.Path.{subst}
use test_db.Prelude.{
  ℕ, zero, suc, ◌≤◌, ◌≡◌, refl, sym, ap, ◌∙◌, arith, true, false, none, some, List, [], ◌∷◌, Str,
  str_eq, str_ltb, eq_of_str_eq, All, Bool-cases, Option-cases, inl, inr,
}
use test_db.Storage.Row.{ScanEntry}
use test_db.Storage.Lsm.Merge.{Source, heap_top, advance, entry_at, entries_ahead, head_of, tail_of}
use test_db.Storage.Lsm.Merge.Sources.{
  Above, AllAscending, AllAtLeast, row_of, AtLeast-Above, Above-AtLeast, IsTop, IsTop-AllAtLeast,
  AllEmpty, AllEmpty-AllAbove, heap_top-none, newest-AllAbove,
}
use test_db.Storage.Lsm.Merge.Front.{
  advance-AllAscending, advance-AllAtLeast, entries_ahead-advance, newest-advance,
}
use test_db.Storage.Lsm.Merge.Steps.{front_place, IsTop-AtMost, no_entries, between}
use test_db.Storage.Lsm.Merge.Kept.{live, IsScanFrom, kept, kept-Above, kept-IsScanOf}
use test_db.Storage.Lsm.Compaction.{merge_loop}

-- No row is a tombstone.
abbrev pub AllAlive : List Source → Type 0
AllAlive = All (λ (s : Source). All (λ (e : ScanEntry). e.value.tombstone ≡ false) s.ahead)

tail-alive :
    (es : List ScanEntry)
    → All (λ (e : ScanEntry). e.value.tombstone ≡ false) es
    → All (λ (e : ScanEntry). e.value.tombstone ≡ false) (tail_of es)
tail-alive [] h = tt
tail-alive (e ∷ es) h = h.1

advance-AllAlive : (d : ℕ) (ss : List Source) → AllAlive ss → AllAlive (advance d ss)
unfolding advance
advance-AllAlive d [] h = tt
advance-AllAlive zero (s ∷ ss) h = (tail-alive s.ahead h.0, h.1)
advance-AllAlive (suc d) (s ∷ ss) h = (h.0, advance-AllAlive d ss h.1)

head-alive :
    (es : List ScanEntry)
    → All (λ (e : ScanEntry). e.value.tombstone ≡ false) es
    → (head_of es).value.tombstone ≡ false
head-alive [] h = refl
head-alive (e ∷ es) h = h.0

entry_at-alive : (d : ℕ) (ss : List Source) → AllAlive ss → (entry_at d ss).value.tombstone ≡ false
unfolding entry_at
entry_at-alive d [] h = refl
entry_at-alive zero (s ∷ ss) h = head-alive s.ahead h.0
entry_at-alive (suc d) (s ∷ ss) h = entry_at-alive d ss h.1

kept_alive : (e : ScanEntry) (es : List ScanEntry) → e.value.tombstone ≡ false → kept e es ≡ e ∷ es
kept_alive e es h = rw (h) refl

nothing : (p : Str) (ss : List Source) → AllEmpty ss → IsScanFrom p ss []
unfolding row_of
nothing p ss h = record {
  above = tt;
  ascending = tt;
  rows = λ j above. ap live (sym (newest-AllAbove j ss (AllEmpty-AllAbove j ss h)));
}

apart : (k p j : Str) → str_eq k p ≡ true → str_ltb p j ≡ true → str_eq k j ≡ false
apart k p j same h =
    subst (λ x. str_eq x j ≡ false) (sym (eq_of_str_eq k p same)) (ground (arith, h))

-- The entries of a key that stands already in the result are passed over.
scan_same :
    (k p : Str) (d : ℕ) (ss : List Source) (es : List ScanEntry)
    → str_eq k p ≡ true
    → IsTop k d ss
    → IsScanFrom k (advance d ss) es
    → IsScanFrom p ss es
scan_same k p d ss es same top r =
    let k=p = eq_of_str_eq k p same in
    record {
      above = subst (λ x. Above x es) k=p r.above;
      ascending = r.ascending;
      rows = λ j h.
          r.rows j (subst (λ x. str_ltb x j ≡ true) (sym k=p) h)
          ∙ ap live (newest-advance k j d ss top (apart k p j same h));
    }

-- The first entry of a key is added.
scan_added :
    (k p : Str) (d : ℕ) (ss : List Source) (es : List ScanEntry)
    → str_ltb p k ≡ true
    → AllAscending ss
    → AllAlive ss
    → IsTop k d ss
    → IsScanFrom k (advance d ss) es
    → IsScanFrom p ss (record { key = k; value = (entry_at d ss).value } ∷ es)
scan_added k p d ss es above a alive top r =
    let e : ScanEntry = record { key = k; value = (entry_at d ss).value } in
    let whole = kept-IsScanOf k d ss es a top r in
    let later = AtLeast-Above p k es above (Above-AtLeast k es r.above) in
    subst (IsScanFrom p ss) (kept_alive e es (entry_at-alive d ss alive)) (record {
      above = kept-Above p e es above later;
      ascending = whole.ascending;
      rows = λ j h. whole.rows j;
    })

module _ (fuel : ℕ) (p : Str) (ss : List Source) where
  merge_loop-empty : heap_top 0 ss ≡ none → merge_loop (suc fuel) ss p ≡ []
  unfolding merge_loop
  merge_loop-empty h = rw (merge_loop, h) refl

  merge_loop-same :
      (k : Str) (d : ℕ)
      → heap_top 0 ss ≡ some (k, d)
      → str_eq k p ≡ true
      → merge_loop (suc fuel) ss p ≡ merge_loop fuel (advance d ss) k
  unfolding merge_loop
  merge_loop-same k d h same = rw (merge_loop, h, same) refl

  merge_loop-other :
      (k : Str) (d : ℕ)
      → heap_top 0 ss ≡ some (k, d)
      → str_eq k p ≡ false
      → merge_loop (suc fuel) ss p
        ≡ record { key = k; value = (entry_at d ss).value } ∷ merge_loop fuel (advance d ss) k
  unfolding merge_loop
  merge_loop-other k d h other = rw (merge_loop, h, other) refl

-- From a key on that no entry is below.
pub merge_loop-IsScanFrom :
    (fuel : ℕ) (p : Str) (ss : List Source)
    → AllAscending ss
    → AllAtLeast p ss
    → AllAlive ss
    → entries_ahead ss ≤ fuel
    → IsScanFrom p ss (merge_loop fuel ss p)
unfolding merge_loop
merge_loop-IsScanFrom zero p ss a l alive enough =
    nothing p ss (no_entries ss (omega (arith, enough)))
merge_loop-IsScanFrom (suc fuel) p ss a l alive enough = elim (Option-cases (heap_top 0 ss)) [
  | inl empty ↦
      subst (IsScanFrom p ss) (sym (merge_loop-empty fuel p ss empty))
        (nothing p ss (heap_top-none 0 ss empty))
  | inr ((k, d), front) ↦
      let top = front_place ss k d a front in
      let later = IsTop-AllAtLeast k d ss a top in
      let r =
        merge_loop-IsScanFrom fuel k (advance d ss) (advance-AllAscending d ss a)
          (advance-AllAtLeast k d ss later) (advance-AllAlive d ss alive)
          (omega (arith, entries_ahead-advance k d ss top, enough)) in
      elim (Bool-cases (str_eq k p)) [
        | inl same ↦
            subst (IsScanFrom p ss) (sym (merge_loop-same fuel p ss k d front same))
              (scan_same k p d ss _ same top r)
        | inr other ↦
            subst (IsScanFrom p ss) (sym (merge_loop-other fuel p ss k d front other)) (
              scan_added k p d ss _ (between p k (IsTop-AtMost p k d ss l top) other) a alive top r)
      ]
]
