-- ===== src/Storage/Memory/Contract.antt =====
-- What the in-memory engine promises: a map from keys to rows, kept sorted, that a batch fills as
-- single writes do.
use test_db.Prelude.{
  ◌⊎◌, ◌+◌, ◌%◌, ◌^◌, ◌≡◌, refl, sym, ◌∙◌, true, false, Option, none, some, List, [], ◌∷◌, ◌++◌,
  map, filter, arith, Str, str_eq, length, if◌then◌else◌, Bool-cases, inl, inr,
}
use mathlib.Core.Path.{subst}
use test_db.Storage.Row.{Row, Columns, WriteRow, ColumnMeta}
use test_db.Storage.Memory.{
  RowEntry, Engine, Error, engine_closed, write, write_batch, remove, get, scan_range, flush, close,
  batch_entries, find_empty, sort_and_dedup_locked,
}
use test_db.Storage.Memory.Shape.{
  IsSorted, find, place, without, upsert_locked-place, remove_at-without, row_at-find,
}
use test_db.Storage.Memory.Table.{place-IsSorted, without-IsSorted, find-place, find-without}
use test_db.Storage.Memory.Batch.{place_all-IsSorted, sort_and_dedup_all}
use test_db.Storage.Memory.Scan.{in_range, entry_of, scan_locked-filter}

-- Every operation that changes the engine.
pub data Op : Type 0 where
  do_write : Str → Columns → Op
  do_write_batch : List WriteRow → Op
  do_remove : Str → Op
  do_flush : List ColumnMeta → Op
  do_close : Op

unfoldable pub apply : Op → Engine → Option Error × Engine
apply (do_write k v) e = write k v e
apply (do_write_batch rs) e = write_batch rs e
apply (do_remove k) e = remove k e
apply (do_flush cols) e = flush cols e
apply do_close e = close e

unfoldable pub run : List Op → Engine → Engine
unfolding apply
run [] e = e
run (op ∷ ops) e = run ops (apply op e).1

write-IsSorted :
    (k : Str) (v : Columns) (e : Engine) → IsSorted e.rows → IsSorted (write k v e).1.rows
unfolding write
write-IsSorted k v e s = elim (Bool-cases (str_eq k [])) [
  | inl empty ↦ rw empty s
  | inr named ↦ rw named (elim (Bool-cases e.closed) [
    | inl shut ↦ rw shut s
    | inr is_open ↦ rw is_open (rw (upsert_locked-place k e.rows s) (place-IsSorted k _ e.rows s))
  ])
]

-- What a batch of at least one row appends.
abbrev pub added : WriteRow → List WriteRow → Engine → List RowEntry
added r rs e = let n = length (r ∷ rs) in batch_entries ((e.next_ver + n) % 2 ^ 64) n 0 (r ∷ rs)

write_batch_rows :
    (r : WriteRow) (rs : List WriteRow) (e : Engine)
    → ((write_batch (r ∷ rs) e).1.rows ≡ e.rows)
      ⊎ ((write_batch (r ∷ rs) e).1.rows ≡ sort_and_dedup_locked (e.rows ++ added r rs e))
unfolding write_batch
write_batch_rows r rs e = ground arith

write_batch-IsSorted :
    (rs : List WriteRow) (e : Engine) → IsSorted e.rows → IsSorted (write_batch rs e).1.rows
write_batch-IsSorted [] e s = unfold write_batch in s
write_batch-IsSorted (r ∷ rs) e s = elim (write_batch_rows r rs e) [
  | inl same ↦ subst IsSorted (sym same) s
  | inr more ↦
      subst IsSorted (sym (more ∙ sort_and_dedup_all e.rows (added r rs e) s))
        (place_all-IsSorted (added r rs e) e.rows s)
]

remove-IsSorted : (k : Str) (e : Engine) → IsSorted e.rows → IsSorted (remove k e).1.rows
unfolding remove
remove-IsSorted k e s = elim (Bool-cases (str_eq k [])) [
  | inl empty ↦ rw empty s
  | inr named ↦ rw named (elim (Bool-cases e.closed) [
    | inl shut ↦ rw shut s
    | inr is_open ↦ rw is_open (rw (remove_at-without k e.rows s) (without-IsSorted k e.rows s))
  ])
]

apply-IsSorted : (op : Op) (e : Engine) → IsSorted e.rows → IsSorted (apply op e).1.rows
unfolding apply
apply-IsSorted (do_write k v) e s = write-IsSorted k v e s
apply-IsSorted (do_write_batch rs) e s = write_batch-IsSorted rs e s
apply-IsSorted (do_remove k) e s = remove-IsSorted k e s
apply-IsSorted (do_flush cols) e s = unfold flush in s
apply-IsSorted do_close e s = unfold close in tt

-- Whatever operations run, failing or not, the keys of a sorted engine stay strictly ascending.
pub run-IsSorted : (ops : List Op) (e : Engine) → IsSorted e.rows → IsSorted (run ops e).rows
unfolding run
run-IsSorted [] e s = s
run-IsSorted (op ∷ ops) e s = run-IsSorted ops _ (apply-IsSorted op e s)

get-find :
    (key : Str) (e : Engine) → IsSorted e.rows → e.closed ≡ false → get key e ≡ find key e.rows
unfolding get
get-find key e s is_open = rw (row_at-find key e.rows s) (ground arith)

-- The row that a write stores.
abbrev pub written : Columns → Engine → Row
written v e = record { version = (e.next_ver + 1) % 2 ^ 64; columns = v; tombstone = false }

pub write-place :
    (k : Str) (v : Columns) (e : Engine)
    → IsSorted e.rows
    → e.closed ≡ false
    → str_eq k [] ≡ false
    → write k v e ≡ (
      none,
      record e { rows = place k (written v e) e.rows; next_ver = (e.next_ver + 1) % 2 ^ 64 },
    )
unfolding write
write-place k v e s is_open h = rw (h, upsert_locked-place k e.rows s (written v e)) (ground arith)

-- On an open, sorted engine a write under a key that is not empty succeeds. Afterwards a read of
-- that key gives the row written, with the next version, and a read of any other key what it gave.
pub get-write :
    (k j : Str) (v : Columns) (e : Engine)
    → IsSorted e.rows
    → e.closed ≡ false
    → str_eq k [] ≡ false
    → ((write k v e).0 ≡ none)
      × (get j (write k v e).1 ≡ (if str_eq k j then some (written v e) else get j e))
get-write k j v e s is_open h =
    let after : Engine = record e {
      rows = place k (written v e) e.rows;
      next_ver = (e.next_ver + 1) % 2 ^ 64;
    } in
    let read = get-find j after (place-IsSorted k (written v e) e.rows s) is_open in
    rw (write-place k v e s is_open h)
      (refl, read ∙ rw (get-find j e s is_open) (find-place k j (written v e) e.rows))

remove-without :
    (k : Str) (e : Engine)
    → IsSorted e.rows
    → e.closed ≡ false
    → str_eq k [] ≡ false
    → remove k e ≡ (none, record e { rows = without k e.rows })
unfolding remove
remove-without k e s is_open h = rw (h, remove_at-without k e.rows s) (ground arith)

-- On an open, sorted engine a delete under a key that is not empty succeeds. Afterwards a read of
-- that key gives nothing, and a read of any other key what it gave.
pub get-remove :
    (k j : Str) (e : Engine)
    → IsSorted e.rows
    → e.closed ≡ false
    → str_eq k [] ≡ false
    → ((remove k e).0 ≡ none) × (get j (remove k e).1 ≡ (if str_eq k j then none else get j e))
get-remove k j e s is_open h =
    let after : Engine = record e { rows = without k e.rows } in
    let read = get-find j after (without-IsSorted k e.rows s) is_open in
    rw (remove-without k e s is_open h)
      (refl, read ∙ rw (get-find j e s is_open) (find-without k j e.rows s))

-- On an open, sorted engine a scan returns exactly the rows whose keys lie between the bounds,
-- both included and an empty bound being none, in the order of the slice.
pub scan_range-filter :
    (start end : Str) (e : Engine)
    → IsSorted e.rows
    → e.closed ≡ false
    → scan_range start end e ≡ map entry_of (filter (in_range start end) e.rows)
unfolding scan_range
scan_range-filter start end e s is_open = rw is_open (scan_locked-filter start end e.rows s)

-- A closed engine refuses a write, a delete and a batch of keys that are not empty, and leaves the
-- rows as they are; reads and scans find nothing in it.
pub closed_refuses :
    (k start end : Str) (v : Columns) (r : WriteRow) (rs : List WriteRow) (e : Engine)
    → e.closed ≡ true
    → str_eq k [] ≡ false
    → find_empty 0 (r ∷ rs) ≡ none
    → ((write k v e).0 ≡ some engine_closed)
      × ((write k v e).1.rows ≡ e.rows)
      × (remove k e ≡ (some engine_closed, e))
      × (write_batch (r ∷ rs) e ≡ (some engine_closed, e))
      × (get k e ≡ none)
      × (scan_range start end e ≡ [])
unfolding write remove write_batch get scan_range
closed_refuses k start end v r rs e shut h named = ground arith
