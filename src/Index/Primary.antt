-- ===== src/Index/Primary.antt =====
-- pkg/index/primary.go: the index from key ranges to segments.
pub mod Sorted
pub mod Queries
pub mod InsertionSort
mod Runs
use mathlib.Core.List.{Perm}
use test_db.Prelude.{
  ℕ, ◌≡◌, Bool, true, false, not, ◌&&◌, ◌||◌, Option, none, some, List, [], ◌∷◌, ◌++◌, Str, str_leb,
  str_ltb, str_eq, take, drop, ◌==◌, if◌then◌else◌, search_elems, length, All,
}

pub record SegmentMeta : Type 0 where
  pub id : ℕ
  pub min_key : Str
  pub max_key : Str
  pub level : ℕ

pub data Error : Type 0 where
  invalid_id : Error
  min_above_max : Error
  not_found : Error

-- Minimum keys never fall.
abbrev pub IsAscending : List SegmentMeta → Type 0
IsAscending [] = Unit
IsAscending (x ∷ xs) =
    All (λ (y : SegmentMeta). str_leb x.min_key y.min_key ≡ true) xs × IsAscending xs

-- sort.Slice by MinKey: it is not stable, so all that is known of its result is that it holds the
-- same segments in ascending order.
pub record SliceSort : Type 0 where
  pub sort : List SegmentMeta → List SegmentMeta
  pub sort-perm : (xs : List SegmentMeta) → Perm (sort xs) xs
  pub sort-IsAscending : (xs : List SegmentMeta) → IsAscending (sort xs)

unfoldable pub key_in_range : Str → Str → Str → Bool
key_in_range key min max =
    if str_eq min [] && str_eq max [] then false else str_leb min key && str_leb key max

unfoldable pub range_overlap : Str → Str → Str → Str → Bool
range_overlap start end min max =
    if str_eq min [] && str_eq max [] then false else str_leb start max && str_leb min end

unfoldable pub register_segment :
    SliceSort → SegmentMeta → List SegmentMeta → Option Error × List SegmentMeta
register_segment s seg segs =
    if seg.id == 0
    then (some invalid_id, segs)
    else if str_ltb seg.max_key seg.min_key
        && (not (str_eq seg.min_key []) && not (str_eq seg.max_key []))
    then (some min_above_max, segs)
    else (none, s.sort (segs ++ seg ∷ []))

-- The segments without the first of an ID; `none` if there is none.
unfoldable pub without_id : ℕ → List SegmentMeta → Option (List SegmentMeta)
without_id id [] = none
without_id id (x ∷ xs) =
    let rest = without_id id xs in
    if x.id == id then some xs else elim rest [ none ↦ none | some ys ↦ some (x ∷ ys) ]

unfoldable pub unregister_segment : ℕ → List SegmentMeta → Option Error × List SegmentMeta
unfolding without_id
unregister_segment id segs = elim (without_id id segs) [
  | none ↦ (some not_found, segs)
  | some rest ↦ (none, rest)
]

-- The test of the bisection: segments[i].MinKey > key.
abbrev pub starts_after : Str → SegmentMeta → Bool
starts_after key seg = str_ltb key seg.min_key

abbrev pub covers : Str → SegmentMeta → Bool
covers key seg = key_in_range key seg.min_key seg.max_key

-- `for i := idx - 1; i >= 0; i--` over the segments before idx.
pub scan_down : Str → List SegmentMeta → List ℕ
scan_down key [] = []
scan_down key (x ∷ xs) = scan_down key xs ++ (if covers key x then x.id ∷ [] else [])

-- `for i := idx; i < len(segments); i++`, with its `break`.
pub scan_up : Str → List SegmentMeta → List ℕ
scan_up key [] = []
scan_up key (x ∷ xs) =
    let rest = scan_up key xs in
    if starts_after key x then [] else if covers key x then x.id ∷ rest else rest

unfoldable pub lookup : Str → List SegmentMeta → List ℕ
unfolding search_elems scan_down scan_up
lookup key [] = []
lookup key (x ∷ xs) =
    let segs = x ∷ xs in
    let idx = search_elems (starts_after key) segs in
    scan_down key (take idx segs) ++ scan_up key (drop idx segs)

-- `for i := 0; i < idx; i++` over the segments before idx.
pub scan_range : Str → Str → List SegmentMeta → List ℕ
scan_range start end [] = []
scan_range start end (x ∷ xs) =
    let rest = scan_range start end xs in
    if range_overlap start end x.min_key x.max_key then x.id ∷ rest else rest

unfoldable pub range : Str → Str → List SegmentMeta → List ℕ
unfolding search_elems scan_range
range start end [] = []
range start end (x ∷ xs) =
    let segs = x ∷ xs in scan_range start end (take (search_elems (starts_after end) segs) segs)

unfoldable pub segment_count : List SegmentMeta → ℕ
segment_count segs = length segs

unfoldable pub get_segment : ℕ → List SegmentMeta → Option SegmentMeta
get_segment id [] = none
get_segment id (x ∷ xs) = if x.id == id then some x else get_segment id xs

unfoldable pub clear : List SegmentMeta → List SegmentMeta
clear segs = []
