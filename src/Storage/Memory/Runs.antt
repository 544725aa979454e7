-- ===== src/Storage/Memory/Runs.antt =====
-- The in-memory engine (pkg/storage/memory/engine.go) at concrete inputs.
use test_db.Prelude.{
  ℕ, ◌≡◌, refl, true, false, none, some, List, [], ◌∷◌, map, arith, Str, str_compare, sort_search,
  if◌then◌else◌, str_eq, filter,
}
use test_db.Storage.Row.{Row, WriteRow}
use test_db.Storage.Memory.{
  upsert_locked, find_empty, batch_entries, sort_and_dedup_locked, Engine, empty_key_at, write,
  write_batch, remove, get, scan_range, close,
}
use test_db.Storage.Memory.Shape.{IsSorted}
use test_db.Storage.Memory.Contract.{
  Op, do_write, do_write_batch, do_remove, do_close, run, run-IsSorted, get-write, get-remove,
  scan_range-filter, written,
}
use test_db.Storage.Memory.Scan.{in_range, entry_of}
use test_db.Storage.Memory.Replay.{write_each, write_batch-each}

abbrev key_a : Str
key_a = b'a' ∷ []

abbrev key_b : Str
key_b = b'b' ∷ []

abbrev key_c : Str
key_c = b'c' ∷ []

abbrev row_at_version : ℕ → Row
row_at_version v = record { version = v; columns = []; tombstone = false }

abbrev two_rows : Engine
two_rows = record {
  rows =
      record { key = key_a; row = row_at_version 1 }
      ∷ record { key = key_c; row = row_at_version 2 }
      ∷ [];
  column_meta = [];
  next_ver = 2;
  closed = false;
}

abbrev batch : List WriteRow
batch =
    record { key = key_b; values = [] }
    ∷ record { key = key_a; values = [] }
    ∷ record { key = key_b; values = [] }
    ∷ []

program : Unit {0}
unfolding upsert_locked find_empty batch_entries sort_and_dedup_locked write write_batch remove get
    scan_range close sort_search str_compare
program = tt

sorted : IsSorted two_rows.rows
unfolding str_compare
sorted = ((refl, tt), (tt, tt))

write_runs : get key_b (write key_b [] two_rows).1 ≡ some (row_at_version 3)
unfolding program
write_runs = refl

batch_runs : get key_b (write_batch batch two_rows).1 ≡ some (row_at_version 5)
unfolding program
batch_runs = refl

batch_refused :
    (write_batch (record { key = []; values = [] } ∷ []) two_rows).0 ≡ some (empty_key_at 0)
unfolding program
batch_refused = refl

abbrev ops : List Op
ops = do_write key_b [] ∷ do_write_batch batch ∷ do_remove key_a ∷ do_write [] [] ∷ do_close ∷ []

run-IsSorted_example : IsSorted (run ops two_rows).rows
run-IsSorted_example = run-IsSorted ops two_rows sorted

named_b : str_eq key_b [] ≡ false
unfolding str_compare
named_b = refl

get-write_example :
    ((write key_b [] two_rows).0 ≡ none)
    × (get key_a (write key_b [] two_rows).1
        ≡ (if str_eq key_b key_a then some (written [] two_rows) else get key_a two_rows))
get-write_example = get-write key_b key_a [] two_rows sorted refl named_b

get-remove_example :
    ((remove key_b two_rows).0 ≡ none)
    × (get key_a (remove key_b two_rows).1
        ≡ (if str_eq key_b key_a then none else get key_a two_rows))
get-remove_example = get-remove key_b key_a two_rows sorted refl named_b

scan_range-filter_example :
    scan_range key_b [] two_rows ≡ map entry_of (filter (in_range key_b []) two_rows.rows)
scan_range-filter_example = scan_range-filter key_b [] two_rows sorted refl

abbrev shut : Engine
shut = record two_rows { closed = true }

abbrev row_b : WriteRow
row_b = record { key = key_b; values = [] }

batch_named : find_empty 0 (row_b ∷ []) ≡ none
unfolding find_empty str_compare
batch_named = refl

write_batch-each_example : write_batch batch two_rows ≡ (none, write_each batch two_rows)
unfolding str_compare
write_batch-each_example =
    write_batch-each batch two_rows sorted refl (omega arith) (refl, (refl, (refl, tt)))
