-- ===== src/Storage/Lsm/Engine/Ids.antt =====
-- The order in which Get looks into the segments.
use mathlib.Core.List.{Perm, Permᴰ, reverse_perm}
use mathlib.Core.List.Perm
use mathlib.Core.List.Permᴰ
use mathlib.Core.Path.{ap₂}
use native.Mathlib.Nat.{ℕ_set}
use mathlib.Core.Logic.{∥∥₁_elim}
use mathlib.Core.List
use test_db.Prelude.{
  ℕ, ◌<◌, ◌≡◌, refl, ap, ◌∙◌, arith, List, [], ◌∷◌, Str, filter, map, All, Bool-cases, inl, inr,
}
use test_db.Storage.Lsm.Segment.{Segment}
use test_db.Index.Primary.{SegmentMeta, key_in_range, covers}
use test_db.Index.Primary.Sorted.{ids}
use test_db.Storage.Lsm.PointReads.{insert_id, sort_ids}

insert_id_comm :
    (a b : ℕ) (is : List ℕ) → insert_id a (insert_id b is) ≡ insert_id b (insert_id a is)
unfolding insert_id
insert_id_comm a b [] = ground arith
insert_id_comm a b (i ∷ is) = ground (arith, insert_id_comm a b is)

-- The order in which the IDs come does not matter.
sort_ids-permᴰ : {is js : List ℕ} → Permᴰ is js → sort_ids is ≡ sort_ids js
unfolding sort_ids
sort_ids-permᴰ Permᴰ.nil = refl
sort_ids-permᴰ (Permᴰ.cons {a = a} {l₁ = is} {l₂ = js} e d) =
    ap (λ i. insert_id i (sort_ids is)) e ∙ ap (insert_id _) (sort_ids-permᴰ d)
sort_ids-permᴰ (Permᴰ.swap {a = a} {b = b} {l = l} e f) =
    insert_id_comm a b (sort_ids l) ∙ ap₂ (λ i j. insert_id i (insert_id j (sort_ids l))) f e
sort_ids-permᴰ (Permᴰ.trans d d') = sort_ids-permᴰ d ∙ sort_ids-permᴰ d'

pub sort_ids-perm : {is js : List ℕ} → Perm is js → sort_ids is ≡ sort_ids js
sort_ids-perm p = ∥∥₁_elim p (List.is_set ℕ_set _ _) sort_ids-permᴰ

insert_id-first : (i : ℕ) (is : List ℕ) → All (λ j. i < j) is → insert_id i is ≡ i ∷ is
unfolding insert_id
insert_id-first i [] h = refl
insert_id-first i (j ∷ is) h = ground (arith, h.0)

-- The range that the primary index keeps of a segment.
abbrev pub Range : Type 0
Range = ℕ × Str × Str

abbrev pub range_of : SegmentMeta → Range
range_of m = (m.id, m.min_key, m.max_key)

abbrev pub segment_range : Segment → Range
segment_range s = (s.id, s.min_key, s.max_key)

abbrev pub hits : Str → List Range → List ℕ
hits key rs = map (λ r. r.0) (filter (λ (r : Range). key_in_range key r.1 r.2) rs)

pub hits-ids :
    (key : Str) (idx : List SegmentMeta)
    → ids (filter (covers key) idx) ≡ hits key (map range_of idx)
hits-ids key [] = refl
hits-ids key (m ∷ idx) = ground (arith, hits-ids key idx)

-- IDs rise from the oldest segment to the newest.
abbrev pub Rising : List Segment → Type 0
Rising [] = Unit {0}
Rising (s ∷ segs) = All (λ (x : Segment). s.id < x.id) segs × Rising segs

hits-above :
    (key : Str) (i : ℕ) (segs : List Segment)
    → All (λ (x : Segment). i < x.id) segs
    → All (λ j. i < j) (hits key (map segment_range segs))
hits-above key i [] h = tt
hits-above key i (s ∷ segs) h = elim (Bool-cases (key_in_range key s.min_key s.max_key)) [
  | inl near ↦ rw (near) (h.0, hits-above key i segs h.1)
  | inr away ↦ rw (away) (hits-above key i segs h.1)
]

pub sort_ids-hits :
    (key : Str) (segs : List Segment)
    → Rising segs
    → sort_ids (hits key (map segment_range segs)) ≡ hits key (map segment_range segs)
unfolding sort_ids
sort_ids-hits key [] h = refl
sort_ids-hits key (s ∷ segs) h = elim (Bool-cases (key_in_range key s.min_key s.max_key)) [
  | inl near ↦ rw (near) (
      ap (insert_id s.id) (sort_ids-hits key segs h.1)
      ∙ insert_id-first s.id (hits key (map segment_range segs)) (hits-above key s.id segs h.0))
  | inr away ↦ rw (away) (sort_ids-hits key segs h.1)
]
