-- ===== src/Index/Primary/Runs.antt =====
-- The primary index at concrete inputs.
use mathlib.Core.List.{reverse}
use test_db.Prelude.{ℕ, ◌≡◌, refl, none, List, [], ◌∷◌, filter, str_compare}
use test_db.Index.Primary.{
  SegmentMeta, IsAscending, register_segment, covers, lookup, range, key_in_range, range_overlap,
}
use test_db.Index.Primary.Sorted.{ids, overlaps, lookup-filter, range-filter}
use test_db.Index.Primary.Queries.{Op, register, unregister, run, run-IsAscending}
use test_db.Index.Primary.InsertionSort.{sorter}

abbrev segment : ℕ → ℕ → ℕ → SegmentMeta
segment id min max = record { id = id; min_key = min ∷ []; max_key = max ∷ []; level = 0 }

-- The first segment reaches past the second.
abbrev overlapping : List SegmentMeta
overlapping = segment 7 b'a' b'z' ∷ segment 8 b'c' b'd' ∷ segment 9 b'x' b'y' ∷ []

overlapping-IsAscending : IsAscending overlapping
unfolding str_compare
overlapping-IsAscending = ((refl, (refl, tt)), ((refl, tt), (tt, tt)))

lookup_runs : lookup (b'd' ∷ []) overlapping ≡ 8 ∷ 7 ∷ []
unfolding lookup key_in_range str_compare
lookup_runs = refl

range_runs : range (b'e' ∷ []) (b'x' ∷ []) overlapping ≡ 7 ∷ 9 ∷ []
unfolding range range_overlap str_compare
range_runs = refl

lookup-filter_example :
    lookup (b'd' ∷ []) overlapping ≡ reverse (ids (filter (covers (b'd' ∷ [])) overlapping))
lookup-filter_example = lookup-filter (b'd' ∷ []) overlapping overlapping-IsAscending

range-filter_example :
    range (b'e' ∷ []) (b'x' ∷ []) overlapping
    ≡ ids (filter (overlaps (b'e' ∷ []) (b'x' ∷ [])) overlapping)
range-filter_example = range-filter (b'e' ∷ []) (b'x' ∷ []) overlapping overlapping-IsAscending

abbrev ops : List Op
ops =
    register (segment 3 b'm' b'n')
    ∷ register (segment 0 b'm' b'n')
    ∷ unregister 8
    ∷ unregister 80
    ∷ []

run-IsAscending_example : IsAscending (run sorter ops overlapping)
run-IsAscending_example = run-IsAscending sorter ops overlapping overlapping-IsAscending

register_done : (register_segment sorter (segment 3 b'b' b'e') overlapping).0 ≡ none
unfolding register_segment str_compare
register_done = refl
