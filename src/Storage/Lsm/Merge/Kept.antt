-- ===== src/Storage/Lsm/Merge/Kept.antt =====
-- What a scan returns, and the entry at the front of the heap before a scan of what is left behind.
use mathlib.Core.Path.{subst}
use test_db.Prelude.{
  ℕ, ◌≡◌, sym, ap, ◌∙◌, arith, true, false, Option, none, some, List, ◌∷◌, Str, str_eq, str_ltb,
  if◌then◌else◌, str_eq_refl, eq_of_str_eq, str_compare_swap, Bool-cases, inl, inr,
}
use test_db.Storage.Row.{Row, ScanEntry}
use test_db.Storage.Lsm.Merge.{Source, advance, entry_at}
use test_db.Storage.Lsm.Merge.Sources.{
  Above, IsAscending, AllAscending, AllAtLeast, row_of, newest, AllAtLeast-AllAbove, AtLeast-Above,
  Above-AtLeast, IsTop, IsTop-AllAtLeast, row_of-Above, newest-AllAbove,
}
use test_db.Storage.Lsm.Merge.Front.{newest-front, newest-advance}

-- A deleted row is not seen.
abbrev pub live : Option Row → Option Row
live none = none
live (some r) = if r.tombstone then none else some r

-- The entries of a scan: keys rise strictly, and under each key stands the newest row, where it is
-- there and not deleted.
pub record IsScanOf (ss : List Source) (es : List ScanEntry) : Type 0 where
  pub ascending : IsAscending es
  pub rows : (j : Str) → row_of j es ≡ live (newest j ss)

-- The same for the keys above one.
pub record IsScanFrom (p : Str) (ss : List Source) (es : List ScanEntry) : Type 0 where
  pub above : Above p es
  pub ascending : IsAscending es
  pub rows : (j : Str) → str_ltb p j ≡ true → row_of j es ≡ live (newest j ss)

-- results = append(results, entry), for an entry that is no tombstone
abbrev pub kept : ScanEntry → List ScanEntry → List ScanEntry
kept e es = if e.value.tombstone then es else e ∷ es

kept-IsAscending :
    (e : ScanEntry) (es : List ScanEntry)
    → Above e.key es
    → IsAscending es
    → IsAscending (kept e es)
kept-IsAscending e es b a = elim (Bool-cases e.value.tombstone) [
  | inl dead ↦ rw (dead) a
  | inr alive ↦ rw (alive) (b, a)
]

pub kept-Above :
    (p : Str) (e : ScanEntry) (es : List ScanEntry)
    → str_ltb p e.key ≡ true
    → Above p es
    → Above p (kept e es)
kept-Above p e es h b = elim (Bool-cases e.value.tombstone) [
  | inl dead ↦ rw (dead) b
  | inr alive ↦ rw (alive) (h, b)
]

row_of-kept_same :
    (e : ScanEntry) (es : List ScanEntry)
    → Above e.key es
    → row_of e.key (kept e es) ≡ live (some e.value)
unfolding row_of
row_of-kept_same e es b = ground (arith, row_of-Above e.key es b, str_eq_refl e.key)

row_of-kept_other :
    (e : ScanEntry) (es : List ScanEntry) (j : Str)
    → str_eq e.key j ≡ false
    → row_of j (kept e es) ≡ row_of j es
unfolding row_of
row_of-kept_other e es j h = ground (arith, h)

below_all :
    (k j : Str) (ss : List Source) → AllAtLeast k ss → str_ltb j k ≡ true → newest j ss ≡ none
below_all k j ss a h = newest-AllAbove j ss (AllAtLeast-AllAbove j k ss h a)

apart : (k j : Str) → str_ltb j k ≡ true → str_eq k j ≡ false
apart k j h = ground (arith, h, str_compare_swap k j)

greater : (k j : Str) → str_eq k j ≡ false → str_ltb j k ≡ false → str_ltb k j ≡ true
greater k j other h = ground (arith, other, h, str_compare_swap k j)

-- The front of the heap, and a scan of what is left behind it, are a scan of the sources.
module _ (k : Str) (d : ℕ) (ss : List Source) (es : List ScanEntry) (a : AllAscending ss)
    (top : IsTop k d ss) (s : IsScanFrom k (advance d ss) es) where
  abbrev front_entry : ScanEntry
  front_entry = record { key = k; value = (entry_at d ss).value }

  kept-rows : (j : Str) → row_of j (kept front_entry es) ≡ live (newest j ss)
  kept-rows j = elim (Bool-cases (str_eq k j)) [
    | inl same ↦
        subst (λ x. row_of x (kept front_entry es) ≡ live (newest x ss)) (eq_of_str_eq k j same)
          (row_of-kept_same front_entry es s.above ∙ ap live (sym (newest-front k d ss top)))
    | inr other ↦ row_of-kept_other front_entry es j other ∙ elim (Bool-cases (str_ltb j k)) [
      | inl below ↦
          row_of-Above j es (AtLeast-Above j k es below (Above-AtLeast k es s.above))
          ∙ ap live (sym (below_all k j ss (IsTop-AllAtLeast k d ss a top) below))
      | inr above ↦ s.rows j (greater k j other above) ∙ ap live (newest-advance k j d ss top other)
    ]
  ]

  pub kept-IsScanOf : IsScanOf ss (kept front_entry es)
  kept-IsScanOf = record {
    ascending = kept-IsAscending front_entry es s.above s.ascending;
    rows = kept-rows;
  }
