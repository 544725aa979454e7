-- ===== src/Storage/Lsm/Compaction/Picked.antt =====
-- Which segments are merged and replaced: all of the levels 0 and 1, in the order of their IDs.
use test_db.Prelude.{
  ℕ, ◌<◌, ◌≤◌, ◌≡◌, refl, ap, ◌∙◌, arith, true, false, not, List, [], ◌∷◌, ◌++◌, ltb, ◌==◌,
  if◌then◌else◌, filter, All, Bool-cases, inl, inr,
}
use test_db.Storage.Lsm.Segment.{Segment}
use test_db.Storage.Lsm.Engine.Ids.{Rising}
use test_db.Storage.Lsm.Compaction.{
  insert_segment, sort_segs_by_id, collect_segments_by_level, is_compacted, remaining_levels,
}

-- Each segment has a level, which is 0 or 1.
abbrev pub HasLevels : List Segment → List ℕ → Type 0
HasLevels [] [] = Unit {0}
HasLevels (s ∷ segs) (l ∷ ls) = (l ≤ 1) × HasLevels segs ls
HasLevels _ _ = ⊥

abbrev Below : ℕ → List Segment → Type 0
Below i = All (λ (x : Segment). i < x.id)

insert_segment-first :
    (s : Segment) (segs : List Segment) → Below s.id segs → insert_segment s segs ≡ s ∷ segs
unfolding insert_segment
insert_segment-first s [] h = refl
insert_segment-first s (x ∷ segs) h = ground (arith, h.0)

insert-Below :
    (i : ℕ) (s : Segment) (segs : List Segment)
    → i < s.id
    → Below i segs
    → Below i (insert_segment s segs)
unfolding insert_segment
insert-Below i s [] h k = (h, tt)
insert-Below i s (x ∷ segs) h k = elim (Bool-cases (ltb x.id s.id)) [
  | inl less ↦ rw (less) (k.0, insert-Below i s segs h k.1)
  | inr more ↦ rw (more) (h, k)
]

sort-Below : (i : ℕ) (segs : List Segment) → Below i segs → Below i (sort_segs_by_id segs)
unfolding sort_segs_by_id
sort-Below i [] h = tt
sort-Below i (s ∷ segs) h = insert-Below i s (sort_segs_by_id segs) h.0 (sort-Below i segs h.1)

Below-append : (i : ℕ) (xs ys : List Segment) → Below i xs → Below i ys → Below i (xs ++ ys)
Below-append i [] ys h k = k
Below-append i (x ∷ xs) ys h k = (h.0, Below-append i xs ys h.1 k)

-- The segment with the least ID comes to the front from anywhere.
sort-least :
    (s : Segment) (xs ys : List Segment)
    → Below s.id xs
    → Below s.id ys
    → sort_segs_by_id (xs ++ s ∷ ys) ≡ s ∷ sort_segs_by_id (xs ++ ys)
unfolding sort_segs_by_id insert_segment
sort-least s [] ys h k = insert_segment-first s (sort_segs_by_id ys) (sort-Below s.id ys k)
sort-least s (x ∷ xs) ys h k =
    ap (insert_segment x) (sort-least s xs ys h.1 k) ∙ ground (arith, h.0)

Below-collect :
    (i level : ℕ) (segs : List Segment) (ls : List ℕ)
    → Below i segs
    → Below i (collect_segments_by_level level segs ls)
unfolding collect_segments_by_level
Below-collect i level [] ls h = tt
Below-collect i level (s ∷ segs) [] h = tt
Below-collect i level (s ∷ segs) (l ∷ ls) h = elim (Bool-cases (l == level)) [
  | inl here ↦ rw (here) (h.0, Below-collect i level segs ls h.1)
  | inr other ↦ rw (other) (Below-collect i level segs ls h.1)
]

-- Sorted by their IDs, the segments of both levels are the engine's segments.
pub sort-collected :
    (segs : List Segment) (ls : List ℕ)
    → HasLevels segs ls
    → Rising segs
    → sort_segs_by_id (collect_segments_by_level 0 segs ls ++ collect_segments_by_level 1 segs ls)
      ≡ segs
unfolding collect_segments_by_level sort_segs_by_id
sort-collected [] [] h r = refl
sort-collected [] (l ∷ ls) h r = absurd h
sort-collected (s ∷ segs) [] h r = absurd h
sort-collected (s ∷ segs) (l ∷ ls) h r =
    let zeros = collect_segments_by_level 0 segs ls in
    let ones = collect_segments_by_level 1 segs ls in
    let rest = sort-collected segs ls h.1 r.1 in
    let below0 = Below-collect s.id 0 segs ls r.0 in
    let below1 = Below-collect s.id 1 segs ls r.0 in
    elim (Bool-cases (l == 0)) [
      | inl at0 ↦
          let not1 : (l == 1) ≡ false = ground (arith, at0) in
          rw (at0, not1)
            (sort-least s [] (zeros ++ ones) tt (Below-append s.id zeros ones below0 below1)
              ∙ ap (λ xs. s ∷ xs) rest)
      | inr other ↦
          let at1 : (l == 1) ≡ true = ground (arith, other, h.0) in
          rw (other, at1) (sort-least s zeros ones below0 below1 ∙ ap (λ xs. s ∷ xs) rest)
    ]

is_compacted-append :
    (id : ℕ) (xs ys : List Segment)
    → is_compacted id (xs ++ ys) ≡ (if is_compacted id xs then true else is_compacted id ys)
unfolding is_compacted
is_compacted-append id [] ys = refl
is_compacted-append id (x ∷ xs) ys = ground (arith, is_compacted-append id xs ys)

is_compacted-collected :
    (id : ℕ) (segs : List Segment) (ls : List ℕ)
    → HasLevels segs ls
    → is_compacted id (collect_segments_by_level 0 segs ls ++ collect_segments_by_level 1 segs ls)
      ≡ is_compacted id segs
unfolding collect_segments_by_level is_compacted
is_compacted-collected id [] [] h = refl
is_compacted-collected id [] (l ∷ ls) h = absurd h
is_compacted-collected id (s ∷ segs) [] h = absurd h
is_compacted-collected id (s ∷ segs) (l ∷ ls) h =
    let zeros = collect_segments_by_level 0 segs ls in
    let ones = collect_segments_by_level 1 segs ls in
    ground (
      arith,
      is_compacted-collected id segs ls h.1,
      is_compacted-append id zeros ones,
      is_compacted-append id zeros (s ∷ ones),
      is_compacted-append id (s ∷ zeros) ones,
      is_compacted-append id (s ∷ zeros) (s ∷ ones),
      h.0,
    )

new_stays :
    (id : ℕ) (segs : List Segment)
    → All (λ (x : Segment). x.id < id) segs
    → is_compacted id segs ≡ false
unfolding is_compacted
new_stays id [] h = refl
new_stays id (s ∷ segs) h = ground (arith, h.0, new_stays id segs h.1)

segments_leave :
    (segs gone : List Segment)
    → All (λ (x : Segment). is_compacted x.id gone ≡ true) segs
    → (seg : Segment) → is_compacted seg.id gone ≡ false
    → filter (λ (s : Segment). not (is_compacted s.id gone)) (segs ++ seg ∷ []) ≡ seg ∷ []
segments_leave [] gone h seg stays = rw (stays) refl
segments_leave (s ∷ segs) gone h seg stays = rw (h.0) (segments_leave segs gone h.1 seg stays)

member :
    (segs gone : List Segment)
    → ((id : ℕ) → is_compacted id segs ≡ true → is_compacted id gone ≡ true)
    → All (λ (x : Segment). is_compacted x.id gone ≡ true) segs
unfolding is_compacted
member [] gone h = tt
member (s ∷ segs) gone h =
    (h s.id (ground arith), member segs gone (λ id k. h id (ground (arith, k))))

levels_leave :
    (segs : List Segment) (ls : List ℕ) (gone : List Segment)
    → HasLevels segs ls
    → All (λ (x : Segment). is_compacted x.id gone ≡ true) segs
    → (seg : Segment) (level : ℕ) → is_compacted seg.id gone ≡ false
    → remaining_levels gone (segs ++ seg ∷ []) (ls ++ level ∷ []) ≡ level ∷ []
unfolding remaining_levels
levels_leave [] [] gone h c seg level stays = rw (stays) refl
levels_leave [] (l ∷ ls) gone h c seg level stays = absurd h
levels_leave (s ∷ segs) [] gone h c seg level stays = absurd h
levels_leave (s ∷ segs) (l ∷ ls) gone h c seg level stays =
    rw (c.0) (levels_leave segs ls gone h.1 c.1 seg level stays)

-- When the segments of both levels are taken out, only the new one is left.
pub only_new :
    (segs : List Segment) (ls : List ℕ) (seg : Segment)
    → HasLevels segs ls
    → All (λ (x : Segment). x.id < seg.id) segs
    → filter
        (λ (s : Segment). not (
          is_compacted s.id
            (collect_segments_by_level 0 segs ls ++ collect_segments_by_level 1 segs ls)))
        (segs ++ seg ∷ [])
      ≡ seg ∷ []
only_new segs ls seg h new =
    let gone = collect_segments_by_level 0 segs ls ++ collect_segments_by_level 1 segs ls in
    segments_leave segs gone (member segs gone (λ id k. is_compacted-collected id segs ls h ∙ k))
      seg (is_compacted-collected seg.id segs ls h ∙ new_stays seg.id segs new)

pub only_new_level :
    (segs : List Segment) (ls : List ℕ) (seg : Segment) (level : ℕ)
    → HasLevels segs ls
    → All (λ (x : Segment). x.id < seg.id) segs
    → remaining_levels
        (collect_segments_by_level 0 segs ls ++ collect_segments_by_level 1 segs ls)
        (segs ++ seg ∷ [])
        (ls ++ level ∷ [])
      ≡ level ∷ []
only_new_level segs ls seg level h new =
    let gone = collect_segments_by_level 0 segs ls ++ collect_segments_by_level 1 segs ls in
    levels_leave segs ls gone h (member segs gone (λ id k. is_compacted-collected id segs ls h ∙ k))
      seg level (is_compacted-collected seg.id segs ls h ∙ new_stays seg.id segs new)
