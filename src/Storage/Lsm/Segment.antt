-- ===== src/Storage/Lsm/Segment.antt =====
-- pkg/storage/segment.go: the search of a segment's sorted keys; pkg/storage/iterator.go: the iterator
-- over a segment's rows in a range of keys.
pub mod Ranges
pub mod Lookup
use test_db.Prelude.{
  ℕ, zero, suc, ◌+◌, ◌-◌, ◌/◌, Bool, true, false, not, ◌&&◌, ◌||◌, Option, none, some, List, [],
  ◌∷◌, Str, str_eq, str_ltb, str_leb, ltb, leb, ◌==◌, if◌then◌else◌, length, take, drop,
  search_elems,
}
use test_db.Storage.Row.{ScanEntry}
use test_db.Storage.Lsm.Merge.{Source}

-- The rows with the engine's columns as a scan decodes them, or the error of a column that does not
-- decode; `readable` is whether GetColumnValue finds and decodes the engine's column of an index.
pub record Segment : Type 0 where
  pub id : ℕ
  pub min_key : Str
  pub max_key : Str
  pub rows : List ScanEntry
  pub failure : Option Str
  pub readable : ℕ → Bool

unfoldable pub key_at : List ScanEntry → ℕ → Str
key_at [] i = []
key_at (e ∷ es) zero = e.key
key_at (e ∷ es) (suc i) = key_at es i

-- The loop of FindRowByKey, where `stop` is hi + 1.
unfoldable pub find_loop : ℕ → Str → List ScanEntry → ℕ → ℕ → Option ℕ
unfolding key_at
find_loop zero key rows lo stop = none
find_loop (suc fuel) key rows lo stop =
    let mid = lo + (stop - 1 - lo) / 2 in
    let less = str_ltb (key_at rows mid) key in
    let rest =
      find_loop fuel key rows (if less then mid + 1 else lo) (if less then stop else mid) in
    if not (ltb lo stop) then none else if str_eq (key_at rows mid) key then some mid else rest

unfoldable pub find_row_by_key : Str → List ScanEntry → Option ℕ
unfolding find_loop
find_row_by_key key rows =
    if length rows == 0 then none else find_loop (length rows) key rows 0 (length rows)

-- Keys[mid] < key sends the bisection on, and Keys[mid] <= key.
abbrev pub from_key : Str → ScanEntry → Bool
from_key key e = str_leb key e.key

abbrev pub past_key : Str → ScanEntry → Bool
past_key key e = str_ltb key e.key

unfoldable pub find_row_by_key_ge : Str → List ScanEntry → Option ℕ
unfolding search_elems
find_row_by_key_ge key rows =
    let lo = search_elems (from_key key) rows in if leb (length rows) lo then none else some lo

unfoldable pub find_row_by_key_le : Str → List ScanEntry → Option ℕ
unfolding search_elems
find_row_by_key_le key rows =
    let lo = search_elems (past_key key) rows in if lo == 0 then none else some (lo - 1)

-- The indices of the first and of the last row in the range.
unfoldable pub compute_range : Str → Str → List ScanEntry → Option (ℕ × ℕ)
unfolding find_row_by_key_ge find_row_by_key_le
compute_range start end rows = elim (find_row_by_key_ge start rows) [
  | none ↦ none
  | some i ↦ elim (find_row_by_key_le end rows) [
    | none ↦ none
    | some j ↦ if ltb j i then none else some (i, j)
  ]
]

-- The rows that Next comes to; an iterator with none does not decode the columns, so it has no error.
unfoldable pub segment_iterator : Str → Str → Segment → Source
unfolding compute_range
segment_iterator start end seg = elim (compute_range start end seg.rows) [
  | none ↦ record { ahead = []; failure = none }
  | some (i, j) ↦ elim seg.failure [
    | none ↦ record { ahead = drop i (take (j + 1) seg.rows); failure = none }
    | some x ↦ record { ahead = []; failure = some x }
  ]
]
