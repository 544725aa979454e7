-- ===== src/Index/Primary/Sorted.antt =====
-- The searches of the primary index over ascending segments, as filters.
use mathlib.Core.List.{reverse, reverse-append, append-nil}
use mathlib.Core.Path.{ap₂}
use test_db.Prelude.{
  ℕ, zero, suc, ◌<◌, ◌≡◌, refl, ap, sym, ◌∙◌, Bool, true, false, List, [], ◌∷◌, ◌++◌, map, arith,
  filter, Str, str_leb, str_ltb, eq_of_str_compare, str_compare_swap, str_lt_trans, take, drop,
  length, if◌then◌else◌, Bool-cases, inl, inr, position, search_elems-position, holds_at, IsUpward,
  All,
}
use test_db.Index.Primary.{
  SegmentMeta, IsAscending, key_in_range, range_overlap, starts_after, covers, scan_down, scan_up,
  scan_range, lookup, range,
}

abbrev pub AllFrom : Str → List SegmentMeta → Type 0
AllFrom k xs = All (λ (y : SegmentMeta). str_leb k y.min_key ≡ true) xs

lt_of_lt_of_le : (a b c : Str) → str_ltb a b ≡ true → str_leb b c ≡ true → str_ltb a c ≡ true
lt_of_lt_of_le a b c h k = ground (arith, str_lt_trans a b c, eq_of_str_compare b c)

after_from :
    (key k : Str) (xs : List SegmentMeta)
    → str_ltb key k ≡ true
    → AllFrom k xs
    → (i : ℕ) → i < length xs
    → holds_at (starts_after key) xs i ≡ true
after_from key k [] h a i lt = absurd (omega arith)
after_from key k (x ∷ xs) h a zero lt = lt_of_lt_of_le key k x.min_key h a.0
after_from key k (x ∷ xs) h a (suc i) lt = after_from key k xs h a.1 i (omega arith)

IsAscending-IsUpward :
    (key : Str) (xs : List SegmentMeta) → IsAscending xs → IsUpward (starts_after key) xs
IsAscending-IsUpward key [] s = tt
IsAscending-IsUpward key (x ∷ xs) s =
    (λ h. after_from key x.min_key xs h s.0, IsAscending-IsUpward key xs s.1)

-- A segment that starts after the key neither covers it nor overlaps a range that ends there.
not_covers : (key : Str) (x : SegmentMeta) → starts_after key x ≡ true → covers key x ≡ false
unfolding key_in_range
not_covers key x h = ground (arith, str_compare_swap key x.min_key)

not_overlaps :
    (start end : Str) (x : SegmentMeta)
    → starts_after end x ≡ true
    → range_overlap start end x.min_key x.max_key ≡ false
unfolding range_overlap
not_overlaps start end x h = ground (arith, str_compare_swap end x.min_key)

scan_down_after :
    (key k : Str) (xs : List SegmentMeta)
    → str_ltb key k ≡ true
    → AllFrom k xs
    → scan_down key xs ≡ []
unfolding scan_down
scan_down_after key k [] h a = refl
scan_down_after key k (x ∷ xs) h a =
    rw (scan_down_after key k xs h a.1, not_covers key x (lt_of_lt_of_le key k x.min_key h a.0))

scan_down-take :
    (key : Str) (xs : List SegmentMeta)
    → IsAscending xs
    → scan_down key (take (position (starts_after key) xs) xs) ≡ scan_down key xs
unfolding position scan_down
scan_down-take key [] s = refl
scan_down-take key (x ∷ xs) s = elim (Bool-cases (starts_after key x)) [
  | inl h ↦ rw h (rw (scan_down_after key x.min_key xs h s.0, not_covers key x h))
  | inr h ↦
      rw h (ap (λ l. l ++ (if covers key x then x.id ∷ [] else [])) (scan_down-take key xs s.1))
]

scan_up-drop :
    (key : Str) (xs : List SegmentMeta)
    → scan_up key (drop (position (starts_after key) xs) xs) ≡ []
unfolding position scan_up
scan_up-drop key [] = refl
scan_up-drop key (x ∷ xs) = ground (arith, scan_up-drop key xs)

scan_range_after :
    (start end k : Str) (xs : List SegmentMeta)
    → str_ltb end k ≡ true
    → AllFrom k xs
    → scan_range start end xs ≡ []
unfolding scan_range
scan_range_after start end k [] h a = refl
scan_range_after start end k (x ∷ xs) h a =
    rw (not_overlaps start end x (lt_of_lt_of_le end k x.min_key h a.0))
      (scan_range_after start end k xs h a.1)

scan_range-take :
    (start end : Str) (xs : List SegmentMeta)
    → IsAscending xs
    → scan_range start end (take (position (starts_after end) xs) xs) ≡ scan_range start end xs
unfolding position scan_range
scan_range-take start end [] s = refl
scan_range-take start end (x ∷ xs) s = ground (
  arith,
  not_overlaps start end x,
  scan_range_after start end x.min_key xs,
  scan_range-take start end xs s.1,
)

abbrev pub ids : List SegmentMeta → List ℕ
ids = map (λ (x : SegmentMeta). x.id)

abbrev pub overlaps : Str → Str → SegmentMeta → Bool
overlaps start end x = range_overlap start end x.min_key x.max_key

scan_down-filter :
    (key : Str) (xs : List SegmentMeta) → scan_down key xs ≡ reverse (ids (filter (covers key) xs))
unfolding scan_down
scan_down-filter key [] = refl
scan_down-filter key (x ∷ xs) = elim (Bool-cases (covers key x)) [
  | inl h ↦
      rw (h, scan_down-filter key xs)
        (sym (reverse-append (x.id ∷ []) (ids (filter (covers key) xs))))
  | inr h ↦ rw (h, scan_down-filter key xs) (append-nil (reverse (ids (filter (covers key) xs))))
]

scan_range-filter :
    (start end : Str) (xs : List SegmentMeta)
    → scan_range start end xs ≡ ids (filter (overlaps start end) xs)
unfolding scan_range
scan_range-filter start end [] = refl
scan_range-filter start end (x ∷ xs) = ground (arith, scan_range-filter start end xs)

-- On ascending segments a point query returns the IDs of exactly the segments whose range holds the
-- key, the last one first.
pub lookup-filter :
    (key : Str) (xs : List SegmentMeta)
    → IsAscending xs
    → lookup key xs ≡ reverse (ids (filter (covers key) xs))
unfolding lookup
lookup-filter key [] s = refl
lookup-filter key (x ∷ xs) s =
    let segs = x ∷ xs in
    let scan : ℕ → List ℕ = λ i. scan_down key (take i segs) ++ scan_up key (drop i segs) in
    ap scan (search_elems-position (starts_after key) segs (IsAscending-IsUpward key segs s))
    ∙ ap₂ (λ l m. l ++ m) (scan_down-take key segs s) (scan_up-drop key segs)
    ∙ append-nil (scan_down key segs)
    ∙ scan_down-filter key segs

-- On ascending segments a range query returns the IDs of exactly the segments whose range meets the
-- one asked for, in their order.
pub range-filter :
    (start end : Str) (xs : List SegmentMeta)
    → IsAscending xs
    → range start end xs ≡ ids (filter (overlaps start end) xs)
unfolding range
range-filter start end [] s = refl
range-filter start end (x ∷ xs) s =
    let segs = x ∷ xs in
    ap (λ i. scan_range start end (take i segs))
      (search_elems-position (starts_after end) segs (IsAscending-IsUpward end segs s))
    ∙ scan_range-take start end segs s
    ∙ scan_range-filter start end segs
