-- ===== src/Storage/Memory/Replay.antt =====
-- A batch against the same rows written one by one.
use test_db.Prelude.{
  ℕ, suc, ◌+◌, ◌%◌, ◌^◌, ◌<◌, ◌≡◌, refl, ap, sym, ◌∙◌, false, Option, none, List, [], ◌∷◌, ◌++◌,
  arith, str_eq, length, All,
}
use test_db.Storage.Row.{WriteRow}
use test_db.Storage.Memory.{
  RowEntry, Engine, Error, write, write_batch, batch_entries, batch_version, find_empty,
}
use test_db.Storage.Memory.{sort_and_dedup_locked}
use test_db.Storage.Memory.Shape.{IsSorted, place}
use test_db.Storage.Memory.Table.{place-IsSorted}
use test_db.Storage.Memory.Batch.{place_all, sort_and_dedup_all}
use test_db.Storage.Memory.Contract.{written, write-place, added}

-- One `Write` for each row, the first one first.
unfoldable pub write_each : List WriteRow → Engine → Engine
write_each [] e = e
write_each (r ∷ rs) e = write_each rs (write r.key r.values e).1

abbrev pub AllNamed : List WriteRow → Type 0
AllNamed rs = All (λ (r : WriteRow). str_eq r.key [] ≡ false) rs

find_empty-none : (i : ℕ) (rs : List WriteRow) → AllNamed rs → find_empty i rs ≡ none
unfolding find_empty
find_empty-none i [] h = refl
find_empty-none i (r ∷ rs) h = ground (arith, find_empty-none (i + 1) rs h.1)

-- The entries of the rows, with the versions that follow `v`.
numbered : ℕ → List WriteRow → List RowEntry
numbered v [] = []
numbered v (r ∷ rs) =
    record {
      key = r.key;
      row = record { version = (v + 1) % 2 ^ 64; columns = r.values; tombstone = false };
    }
    ∷ numbered ((v + 1) % 2 ^ 64) rs

batch_version_lem : (v n i : ℕ) → batch_version ((v + n) % 2 ^ 64) n i ≡ (v + i + 1) % 2 ^ 64
batch_version_lem v n i = omega arith

batch_entries-numbered :
    (v n i w : ℕ) (rs : List WriteRow)
    → (v + i) % 2 ^ 64 ≡ w % 2 ^ 64
    → batch_entries ((v + n) % 2 ^ 64) n i rs ≡ numbered w rs
unfolding batch_entries numbered
batch_entries-numbered v n i w [] h = refl
batch_entries-numbered v n i w (r ∷ rs) h =
    let same : batch_version ((v + n) % 2 ^ 64) n i ≡ (w + 1) % 2 ^ 64 = omega arith in
    let rest = batch_entries-numbered v n (i + 1) ((w + 1) % 2 ^ 64) rs (omega arith) in
    rw (same, rest)

abbrev after_batch : List RowEntry → ℕ → Engine → Engine
after_batch rows v e = record e { rows = rows; next_ver = v }

write_each-numbered :
    (rs : List WriteRow) (e : Engine)
    → IsSorted e.rows
    → e.closed ≡ false
    → AllNamed rs
    → e.next_ver < 2 ^ 64
    → write_each rs e
      ≡ after_batch
          (place_all (numbered e.next_ver rs) e.rows)
          ((e.next_ver + length rs) % 2 ^ 64)
          e
unfolding write_each numbered place_all
write_each-numbered [] e s is_open h small = ap (λ v. after_batch e.rows v e) same
  where
    same : e.next_ver ≡ (e.next_ver + 0) % 2 ^ 64
    same = omega arith
write_each-numbered (r ∷ rs) e s is_open h small =
    let after =
      after_batch (place r.key (written r.values e) e.rows) ((e.next_ver + 1) % 2 ^ 64) e in
    let one = write-place r.key r.values e s is_open h.0 in
    let rest =
      write_each-numbered rs after (place-IsSorted r.key (written r.values e) e.rows s) is_open h.1
        (omega arith) in
    let count : (after.next_ver + length rs) % 2 ^ 64 ≡ (e.next_ver + suc (length rs)) % 2 ^ 64 =
      omega arith in
    ap (λ (p : Option Error × Engine). write_each rs p.1) one
    ∙ rest
    ∙ ap (λ v. after_batch (place_all (numbered after.next_ver rs) after.rows) v e) count

write_batch-sorted :
    (r : WriteRow) (rs : List WriteRow) (e : Engine)
    → e.closed ≡ false
    → find_empty 0 (r ∷ rs) ≡ none
    → write_batch (r ∷ rs) e ≡ (
      none,
      after_batch
          (sort_and_dedup_locked (e.rows ++ added r rs e))
          ((e.next_ver + length (r ∷ rs)) % 2 ^ 64)
          e,
    )
unfolding write_batch
write_batch-sorted r rs e is_open named = ground arith

-- On an open, sorted engine a batch of rows whose keys are not empty succeeds, and leaves the
-- engine exactly as one `Write` for each row would: rows, versions and counter.
pub write_batch-each :
    (rs : List WriteRow) (e : Engine)
    → IsSorted e.rows
    → e.closed ≡ false
    → e.next_ver < 2 ^ 64
    → AllNamed rs
    → write_batch rs e ≡ (none, write_each rs e)
write_batch-each [] e s is_open small h = unfold write_batch write_each in refl
write_batch-each (r ∷ rs) e s is_open small h =
    let n = length (r ∷ rs) in
    let versions : List RowEntry → Option Error × Engine =
      λ rows. (none, after_batch rows ((e.next_ver + n) % 2 ^ 64) e) in
    write_batch-sorted r rs e is_open (find_empty-none 0 (r ∷ rs) h)
    ∙ ap versions (sort_and_dedup_all e.rows (added r rs e) s)
    ∙ ap (λ es. versions (place_all es e.rows))
        (batch_entries-numbered e.next_ver n 0 e.next_ver (r ∷ rs) (omega arith))
    ∙ ap (λ x. (none, x)) (sym (write_each-numbered (r ∷ rs) e s is_open h small))
