-- ===== src/Storage/Memory/Table.antt =====
-- The slice of the in-memory engine as a map from keys to rows: what each operation does to it.
use Prim.Native.Nat.{Ordering}
use test_db.Prelude.{
  ◌≡◌, refl, none, some, List, [], ◌∷◌, arith, Str, str_compare, str_eq, str_compare_refl,
  eq_of_str_compare, str_compare_swap, if◌then◌else◌,
}
use test_db.Storage.Row.{Row}
use test_db.Storage.Memory.{RowEntry}
use test_db.Storage.Memory.Shape.{Below, IsSorted, find, place, without, Below-trans, find-Below}

Below-place :
    (j k : Str) (row : Row) (xs : List RowEntry)
    → str_compare j k ≡ Ordering.lt
    → Below j xs
    → Below j (place k row xs)
unfolding place
Below-place j k row [] h b = (h, tt)
Below-place j k row (x ∷ xs) h b = ground (arith, Below-place j k row xs h b.1)

pub place-IsSorted :
    (k : Str) (row : Row) (xs : List RowEntry) → IsSorted xs → IsSorted (place k row xs)
unfolding place
place-IsSorted k row [] s = (tt, tt)
place-IsSorted k row (x ∷ xs) s = ground (
  arith,
  str_compare_swap k x.key,
  Below-place x.key k row xs,
  Below-trans k x.key xs,
  place-IsSorted k row xs s.1,
)

Below-without : (j k : Str) (xs : List RowEntry) → Below j xs → Below j (without k xs)
unfolding without
Below-without j k [] b = tt
Below-without j k (x ∷ xs) b = ground (arith, Below-without j k xs b.1)

pub without-IsSorted : (k : Str) (xs : List RowEntry) → IsSorted xs → IsSorted (without k xs)
unfolding without
without-IsSorted k [] s = tt
without-IsSorted k (x ∷ xs) s = ground (arith, Below-without x.key k xs, without-IsSorted k xs s.1)

pub find-place :
    (k j : Str) (row : Row) (xs : List RowEntry)
    → find j (place k row xs) ≡ (if str_eq k j then some row else find j xs)
unfolding find place
find-place k j row [] = refl
find-place k j row (x ∷ xs) = ground (
  arith,
  eq_of_str_compare k x.key,
  eq_of_str_compare k j,
  eq_of_str_compare x.key j,
  str_compare_refl j,
  str_compare_swap k x.key,
  find-place k j row xs,
)

pub find-without :
    (k j : Str) (xs : List RowEntry)
    → IsSorted xs
    → find j (without k xs) ≡ (if str_eq k j then none else find j xs)
unfolding find without
find-without k j [] s = ground arith
find-without k j (x ∷ xs) s = ground (
  arith,
  eq_of_str_compare k j,
  eq_of_str_compare x.key k,
  eq_of_str_compare x.key j,
  str_compare_refl j,
  str_compare_swap k x.key,
  find-Below x.key xs s.0,
  find-without k j xs s.1,
)
