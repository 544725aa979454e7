-- ===== src/Catalog/Parts.antt =====
-- The parts of a table under its changes: primary key and segments.
use mathlib.Core.Path.{subst}
use test_db.Prelude.{
  ℕ, ◌≡◌, refl, sym, ◌∙◌, false, none, some, List, [], ◌∷◌, ◌++◌, arith, Str, str_eq, str_eq_sym,
  ◌==◌, Bool-cases, Option-cases, ◌⊎◌, inl, inr,
}
use test_db.Catalog.Schema.{
  ColumnDef, SegmentRef, listed, missing_key, has_segment, without_segment,
}
use test_db.Catalog.Shape.{
  DistinctIds, KeysAreColumns, has_column-append, without_column, has_column-without,
}

pub KeysAreColumns-append :
    (ks : List Str) (cols more : List ColumnDef)
    → KeysAreColumns ks cols
    → KeysAreColumns ks (cols ++ more)
KeysAreColumns-append [] cols more h = tt
KeysAreColumns-append (k ∷ ks) cols more h =
    (has_column-append k cols more h.0, KeysAreColumns-append ks cols more h.1)

pub KeysAreColumns-without :
    (name : Str) (ks : List Str) (cols : List ColumnDef)
    → listed name ks ≡ false
    → KeysAreColumns ks cols
    → KeysAreColumns ks (without_column name cols)
unfolding listed
KeysAreColumns-without name [] cols n h = tt
KeysAreColumns-without name (k ∷ ks) cols n h =
    let other : str_eq name k ≡ false = ground (arith, n, str_eq_sym name k) in
    (
      has_column-without name k cols other ∙ h.0,
      KeysAreColumns-without name ks cols (ground (arith, n)) h.1,
    )

pub KeysAreColumns-missing :
    (ks : List Str) (cols : List ColumnDef) → missing_key ks cols ≡ none → KeysAreColumns ks cols
unfolding missing_key
KeysAreColumns-missing [] cols h = tt
KeysAreColumns-missing (k ∷ ks) cols h =
    (ground (arith, h), KeysAreColumns-missing ks cols (ground (arith, h)))

has_segment-append :
    (id : ℕ) (ss : List SegmentRef) (seg : SegmentRef)
    → has_segment id ss ≡ false
    → (seg.id == id) ≡ false
    → has_segment id (ss ++ seg ∷ []) ≡ false
unfolding has_segment
has_segment-append id [] seg h d = ground (arith, d)
has_segment-append id (s ∷ ss) seg h d = ground (arith, h, d, has_segment-append id ss seg)

pub DistinctIds-append :
    (ss : List SegmentRef) (seg : SegmentRef)
    → DistinctIds ss
    → has_segment seg.id ss ≡ false
    → DistinctIds (ss ++ seg ∷ [])
unfolding has_segment
DistinctIds-append [] seg h d = (refl, tt)
DistinctIds-append (s ∷ ss) seg h d = (
  has_segment-append s.id ss seg h.0 (ground (arith, d)),
  DistinctIds-append ss seg h.1 (ground (arith, d)),
)

-- What is left is the rest, or the first segment before what is left of the rest.
without-cases :
    (id : ℕ) (s : SegmentRef) (ss rest : List SegmentRef)
    → without_segment id (s ∷ ss) ≡ some rest
    → (rest ≡ ss) ⊎ ((ys : List SegmentRef) × (without_segment id ss ≡ some ys) × (rest ≡ s ∷ ys))
unfolding without_segment
without-cases id s ss rest e = elim (Bool-cases (s.id == id)) [
  | inl same ↦ inl (ground (arith, e, same))
  | inr other ↦ elim (Option-cases (without_segment id ss)) [
    | inl gone ↦ absurd (ground (arith, e, other, gone))
    | inr (ys, there) ↦ inr (ys, there, ground (arith, e, other, there))
  ]
]

has_segment-without :
    (id other : ℕ) (ss rest : List SegmentRef)
    → without_segment id ss ≡ some rest
    → has_segment other ss ≡ false
    → has_segment other rest ≡ false
unfolding has_segment
has_segment-without id other [] rest e h = unfold without_segment in cc
has_segment-without id other (s ∷ ss) rest e h = elim (without-cases id s ss rest e) [
  | inl first ↦ ground (arith, h, first)
  | inr (ys, there, shape) ↦
      let later : has_segment other ss ≡ false = ground (arith, h) in
      let kept = has_segment-without id other ss ys there later in ground (arith, h, kept, shape)
]

pub DistinctIds-without :
    (id : ℕ) (ss rest : List SegmentRef)
    → without_segment id ss ≡ some rest
    → DistinctIds ss
    → DistinctIds rest
DistinctIds-without id [] rest e h = unfold without_segment in cc
DistinctIds-without id (s ∷ ss) rest e h = elim (without-cases id s ss rest e) [
  | inl first ↦ subst DistinctIds (sym first) h.1
  | inr (ys, there, shape) ↦
      subst DistinctIds (sym shape)
        (has_segment-without id s.id ss ys there h.0, DistinctIds-without id ss ys there h.1)
]

-- A segment at the end, under an ID that no other has, is the one that leaves.
pub without_segment-append :
    (ss : List SegmentRef) (seg : SegmentRef)
    → has_segment seg.id ss ≡ false
    → without_segment seg.id (ss ++ seg ∷ []) ≡ some ss
unfolding has_segment without_segment
without_segment-append [] seg h = ground arith
without_segment-append (s ∷ ss) seg h = ground (arith, h, without_segment-append ss seg)
