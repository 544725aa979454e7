-- ===== src/Storage/Memory/Scan.antt =====
-- A range scan of a sorted slice, as a filter.
use test_db.Prelude.{
  ℕ, zero, suc, search_elems, position, ◌≡◌, refl, ap, ◌∙◌, Bool, true, false, ◌&&◌, ◌||◌, List, [],
  ◌∷◌, map, filter, drop, arith, Str, str_compare, str_eq, str_leb, str_compare_swap, position,
  search_elems-position, if◌then◌else◌,
}
use test_db.Storage.Row.{ScanEntry}
use test_db.Storage.Memory.{RowEntry, at_least, scan_until, scan_locked}
use test_db.Storage.Memory.Shape.{Below, IsSorted, IsSorted-IsUpward, Below-trans, at_least-Below}

-- An empty bound is none.
abbrev pub in_range : Str → Str → RowEntry → Bool
in_range start end x = str_leb start x.key && (str_eq end [] || str_leb x.key end)

abbrev pub entry_of : RowEntry → ScanEntry
entry_of x = record { key = x.key; value = x.row }

abbrev pub before_end : Str → RowEntry → Bool
before_end end x = str_eq end [] || str_leb x.key end

open_key : (k : Str) → str_leb [] k ≡ true
unfolding str_compare
open_key [] = refl
open_key (c ∷ k) = refl

open_start : (xs : List RowEntry) → 0 ≡ position (at_least []) xs
unfolding position str_compare
open_start [] = refl
open_start (x ∷ xs) = ground (arith, open_key x.key)

filter_past :
    (end : Str) (xs : List RowEntry)
    → str_eq end [] ≡ false
    → Below end xs
    → filter (before_end end) xs ≡ []
filter_past end [] h b = refl
filter_past end (x ∷ xs) h b = ground (arith, str_compare_swap end x.key, filter_past end xs h b.1)

scan_until-filter :
    (end : Str) (xs : List RowEntry)
    → IsSorted xs
    → scan_until end xs ≡ map entry_of (filter (before_end end) xs)
unfolding scan_until
scan_until-filter end [] s = refl
scan_until-filter end (x ∷ xs) s = ground (
  arith,
  str_compare_swap end x.key,
  Below-trans end x.key xs,
  filter_past end xs,
  scan_until-filter end xs s.1,
)

filter_from :
    (start end : Str) (xs : List RowEntry)
    → Below start xs
    → filter (in_range start end) xs ≡ filter (before_end end) xs
filter_from start end [] b = refl
filter_from start end (x ∷ xs) b = ground (arith, b.0, filter_from start end xs b.1)

drop-filter :
    (start end : Str) (xs : List RowEntry)
    → IsSorted xs
    → filter (before_end end) (drop (position (at_least start) xs) xs)
      ≡ filter (in_range start end) xs
unfolding position
drop-filter start end [] s = refl
drop-filter start end (x ∷ xs) s =
    ground
      (arith, at_least-Below start x xs, filter_from start end xs, drop-filter start end xs s.1)

drop-IsSorted : (n : ℕ) (xs : List RowEntry) → IsSorted xs → IsSorted (drop n xs)
drop-IsSorted zero xs s = s
drop-IsSorted (suc n) [] s = s
drop-IsSorted (suc n) (x ∷ xs) s = drop-IsSorted n xs s.1

start_index :
    (start : Str) (xs : List RowEntry)
    → IsSorted xs
    → (if str_eq start [] then 0 else search_elems (at_least start) xs)
      ≡ position (at_least start) xs
unfolding str_compare
start_index [] xs s = open_start xs
start_index (c ∷ cs) xs s =
    search_elems-position (at_least (c ∷ cs)) xs (IsSorted-IsUpward (c ∷ cs) xs s)

-- The scan returns the rows between the bounds, an empty bound being none, in the order of keys.
pub scan_locked-filter :
    (start end : Str) (xs : List RowEntry)
    → IsSorted xs
    → scan_locked start end xs ≡ map entry_of (filter (in_range start end) xs)
unfolding scan_locked
scan_locked-filter start end xs s =
    ap (λ i. scan_until end (drop i xs)) (start_index start xs s)
    ∙ scan_until-filter end _ (drop-IsSorted _ xs s)
    ∙ ap (map entry_of) (drop-filter start end xs s)
