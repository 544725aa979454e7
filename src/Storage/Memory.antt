-- ===== src/Storage/Memory.antt =====
-- pkg/storage/memory/engine.go: the in-memory engine, a slice of rows that is sorted by key.
pub mod Shape
pub mod Table
pub mod Batch
pub mod Scan
pub mod Contract
pub mod Replay
mod Runs
use test_db.Prelude.{
  ℕ, suc, ◌+◌, ◌-◌, ◌^◌, ◌%◌, Bool, true, false, not, ◌&&◌, Option, none, some, List, [], ◌∷◌, ◌++◌,
  Str, str_leb, str_ltb, str_eq, length, get_elem?, set, take, drop, if◌then◌else◌, search_elems,
}
use test_db.Storage.Row.{Row, Columns, ScanEntry, WriteRow, ColumnMeta}

pub record RowEntry : Type 0 where
  pub key : Str
  pub row : Row

pub record Engine : Type 0 where
  pub rows : List RowEntry
  pub column_meta : List ColumnMeta
  pub next_ver : ℕ
  pub closed : Bool

pub data Error : Type 0 where
  empty_key : Error
  empty_key_at : ℕ → Error
  engine_closed : Error

abbrev pub new : Engine
new = record { rows = []; column_meta = []; next_ver = 0; closed = false }

-- nextVer.Add(n), on a uint64
abbrev add_version : Engine → ℕ → Engine
add_version e n = record e { next_ver = (e.next_ver + n) % 2 ^ 64 }

-- The test of each `sort.Search` of the engine: e.rows[i].key >= key.
abbrev pub at_least : Str → RowEntry → Bool
at_least key e = str_leb key e.key

-- e.rows[idx].key == key, with idx < len(e.rows)
abbrev key_at : List RowEntry → ℕ → Str → Option RowEntry
key_at rows idx key = elim (get_elem? rows idx) [
  | none ↦ none
  | some e ↦ if str_eq e.key key then some e else none
]

-- What an upsert does at the index that the search found.
pub upsert_at : Str → Row → List RowEntry → ℕ → List RowEntry
upsert_at key row rows idx = elim (key_at rows idx key) [
  | some e ↦ set rows idx (record e { row = row })
  | none ↦ take idx rows ++ (record { key = key; row = row } ∷ drop idx rows)
]

pub upsert_locked : Str → Row → List RowEntry → List RowEntry
unfolding search_elems upsert_at
upsert_locked key row rows = upsert_at key row rows (search_elems (at_least key) rows)

pub write : Str → Columns → Engine → Option Error × Engine
write key values e =
    if str_eq key []
    then (some empty_key, e)
    else let e' = add_version e 1 in
      let row : Row = record { version = e'.next_ver; columns = values; tombstone = false } in
      if e.closed
      then (some engine_closed, e')
      else (none, record e' { rows = upsert_locked key row e.rows })

-- The first row of a batch whose key is empty.
pub find_empty : ℕ → List WriteRow → Option ℕ
find_empty i [] = none
find_empty i (r ∷ rs) = if str_eq r.key [] then some i else find_empty (i + 1) rs

-- base - uint64(len(rows)) + uint64(i) + 1
abbrev batch_version : ℕ → ℕ → ℕ → ℕ
batch_version base n i = (base + 2 ^ 64 - n % 2 ^ 64 + i + 1) % 2 ^ 64

-- The rows that a batch appends, from index `i` on.
pub batch_entries : (base n i : ℕ) → List WriteRow → List RowEntry
batch_entries base n i [] = []
batch_entries base n i (r ∷ rs) =
    record {
      key = r.key;
      row = record { version = batch_version base n i; columns = r.values; tombstone = false };
    }
    ∷ batch_entries base n (i + 1) rs

-- sort.SliceStable by key: an entry goes behind those that are less, and before its equals.
stable_insert : RowEntry → List RowEntry → List RowEntry
stable_insert e [] = e ∷ []
stable_insert e (x ∷ xs) =
    let rest = stable_insert e xs in if str_ltb x.key e.key then x ∷ rest else e ∷ x ∷ xs

stable_sort : List RowEntry → List RowEntry
stable_sort [] = []
stable_sort (x ∷ xs) = stable_insert x (stable_sort xs)

-- The loop over `i`, with `last` for e.rows[w].
dedup_loop : RowEntry → List RowEntry → List RowEntry
dedup_loop last [] = last ∷ []
dedup_loop last (x ∷ xs) =
    let rest = dedup_loop x xs in if str_eq x.key last.key then rest else last ∷ rest

dedup : List RowEntry → List RowEntry
dedup [] = []
dedup (x ∷ xs) = dedup_loop x xs

pub sort_and_dedup_locked : List RowEntry → List RowEntry
unfolding stable_sort stable_insert dedup dedup_loop
sort_and_dedup_locked rows = dedup (stable_sort rows)

pub write_batch : List WriteRow → Engine → Option Error × Engine
write_batch [] e = (none, e)
write_batch (r ∷ rs) e =
    let n = length (r ∷ rs) in
    let e' = add_version e n in
    let added = batch_entries e'.next_ver n 0 (r ∷ rs) in
    elim (find_empty 0 (r ∷ rs)) [
      | some i ↦ (some (empty_key_at i), e)
      | none ↦
          if e.closed
          then (some engine_closed, e)
          else (none, record e' { rows = sort_and_dedup_locked (e.rows ++ added) })
    ]

-- What a delete and a read do at the index that the search found.
pub remove_at : Str → List RowEntry → ℕ → List RowEntry
remove_at key rows idx = elim (key_at rows idx key) [
  | none ↦ rows
  | some _ ↦ take idx rows ++ drop (suc idx) rows
]

pub row_at : Str → List RowEntry → ℕ → Option Row
row_at key rows idx = elim (key_at rows idx key) [ none ↦ none | some x ↦ some x.row ]

pub remove : Str → Engine → Option Error × Engine
unfolding search_elems remove_at
remove key e =
    let idx = search_elems (at_least key) e.rows in
    if str_eq key []
    then (none, e)
    else if e.closed
    then (some engine_closed, e)
    else (none, record e { rows = remove_at key e.rows idx })

pub get : Str → Engine → Option Row
unfolding search_elems row_at
get key e =
    let idx = search_elems (at_least key) e.rows in if e.closed then none else row_at key e.rows idx

-- The loop from startIdx, with its `break` at a key past a bound that is not empty.
scan_until : Str → List RowEntry → List ScanEntry
scan_until end [] = []
scan_until end (x ∷ xs) =
    let rest = scan_until end xs in
    if not (str_eq end []) && str_ltb end x.key
    then []
    else record { key = x.key; value = x.row } ∷ rest

pub scan_locked : Str → Str → List RowEntry → List ScanEntry
unfolding search_elems scan_until
scan_locked start end rows =
    let idx = if str_eq start [] then 0 else search_elems (at_least start) rows in
    scan_until end (drop idx rows)

pub scan_range : Str → Str → Engine → List ScanEntry
unfolding scan_locked
scan_range start end e = if e.closed then [] else scan_locked start end e.rows

pub set_column_meta : List ColumnMeta → Engine → Engine
set_column_meta cols e = record e { column_meta = cols }

pub flush : List ColumnMeta → Engine → Option Error × Engine
unfolding set_column_meta
flush cols e = (none, set_column_meta cols e)

pub close : Engine → Option Error × Engine
close e = (none, record e { closed = true; rows = []; column_meta = [] })

pub row_count : Engine → ℕ
row_count e = length e.rows
