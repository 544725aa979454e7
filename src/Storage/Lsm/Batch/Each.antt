-- ===== src/Storage/Lsm/Batch/Each.antt =====
-- A batch against the same rows written one after the other.
use mathlib.Core.Path.{subst}
use test_db.Prelude.{
  ℕ, ◌+◌, ◌%◌, ◌^◌, ◌<◌, ◌≡◌, refl, sym, ap, ◌∙◌, arith, false, Option, none, some, List, [], ◌∷◌,
  Str, str_eq, if◌then◌else◌, length, All, Bool-cases, inl, inr,
}
use test_db.Storage.Row.{WriteRow}
use test_db.Storage.Lsm.Merge.Kept.{live}
use test_db.Storage.Lsm.Engine
use test_db.Storage.Lsm.Engine.{MemTables, Engine, write, write_row, next_row}
use test_db.Storage.Lsm.Engine.Visible.{stored, visible}
use test_db.Storage.Lsm.Engine.Writes.{
  IsOpen, stored-ready, ready-IsOpen, put_now-Stores, write_row-Stores, write_row-next_version,
  io_fine,
}
use test_db.Storage.Lsm.Batch.{
  Error, row_without_key, base_version, batch_row, put_rows, then_rotate, put_batch, write_batch,
}

-- Whether every row has a key.
abbrev Named : List WriteRow → Type 0
Named = All (λ (r : WriteRow). str_eq r.key [] ≡ false)

row_without_key-Named : (i : ℕ) (rows : List WriteRow) → row_without_key i rows ≡ none → Named rows
unfolding row_without_key
row_without_key-Named i [] h = tt
row_without_key-Named i (r ∷ rs) h = elim (Bool-cases (str_eq r.key [])) [
  | inl unnamed ↦
      absurd (cc (ap (λ b. if b then some i else row_without_key (i + 1) rs) (sym unnamed) ∙ h))
  | inr named ↦ (
    named,
    row_without_key-Named (i + 1) rs
        (ap (λ b. if b then some i else row_without_key (i + 1) rs) (sym named) ∙ h),
  )
]

module _ (t : MemTables) where
  abbrev pub followed :
      (Engine t → Option Engine.Error × Engine t)
      → Option Engine.Error × Engine t
      → Option Engine.Error × Engine t
  followed k (none, e) = k e
  followed k (some x, e) = (some x, e)

  followed-fine :
      (k : Engine t → Option Engine.Error × Engine t) (w : Option Engine.Error × Engine t)
      → w.0 ≡ none
      → followed k w ≡ k w.1
  followed-fine k (none, e) h = refl
  followed-fine k (some x, e) h = absurd (cc (h))

  -- Each row by a write of its own, as long as none fails.
  abbrev pub write_each : List WriteRow → Engine t → Option Engine.Error × Engine t
  write_each [] e = (none, e)
  write_each (r ∷ rs) e = followed (write_each rs) (write t io_fine r.key r.values e)

  -- Both ways succeed, stay open for writes and store the same.
  record Agree (b : Option Error × Engine t) (s : Option Engine.Error × Engine t) : Type 0 where
    fine : b.0 ≡ none
    is_open : IsOpen t b.1
    each_fine : s.0 ≡ none
    each_open : IsOpen t s.1
    rows : (j : Str) → stored t b.1 j ≡ stored t s.1 j

  write-named :
      (key : Str) (r : WriteRow) (e : Engine t)
      → str_eq r.key [] ≡ false
      → write t io_fine r.key r.values e ≡ write_row t io_fine r.key (next_row t r.values false e) e
  unfolding write
  write-named key r e named = rw (named) refl

  write_each-step :
      (r : WriteRow) (rs : List WriteRow) (e : Engine t) (w : Option Engine.Error × Engine t)
      → write t io_fine r.key r.values e ≡ w
      → w.0 ≡ none
      → write_each (r ∷ rs) e ≡ write_each rs w.1
  write_each-step r rs e w h fine =
      ap (followed (write_each rs)) h ∙ followed-fine (write_each rs) w fine

  put_rows-step :
      (v : ℕ) (r : WriteRow) (rs : List WriteRow) (e : Engine t) (m : t.State)
      → t.put r.key (batch_row t v r) e.active_mem ≡ some m
      → put_rows t v (r ∷ rs) e ≡ put_rows t ((v + 1) % 2 ^ 64) rs (record e { active_mem = m })
  unfolding put_rows
  put_rows-step v r rs e m h = rw (put_rows, h) refl

  put_rows-each :
      (rows : List WriteRow) (v : ℕ) (e e1 : Engine t)
      → Named rows
      → IsOpen t e
      → IsOpen t e1
      → v ≡ (e1.next_version + 1) % 2 ^ 64
      → ((j : Str) → stored t e j ≡ stored t e1 j)
      → Agree (put_rows t v rows e) (write_each rows e1)
  unfolding put_rows
  put_rows-each [] v e e1 named opened opened1 h same = record {
    fine = refl;
    is_open = opened;
    each_fine = refl;
    each_open = opened1;
    rows = same;
  }
  put_rows-each (r ∷ rs) v e e1 named opened opened1 h same =
      let row = next_row t r.values false e1 in
      let (m, done) = t.put-some r.key (batch_row t v r) e.active_mem opened in
      let put = put_now-Stores t r.key (batch_row t v r) e m done in
      let w = write_row t io_fine r.key row e1 in
      let (fine, stores) = write_row-Stores t r.key row e1 opened1 in
      let rest =
        put_rows-each rs ((v + 1) % 2 ^ 64) (record e { active_mem = m }) w.1 named.1 put.is_open
          stores.is_open
          (ap (λ n. (n + 1) % 2 ^ 64) (h ∙ sym (write_row-next_version t r.key row e1 opened1)))
          (λ j.
            put.rows j
            ∙ ap (λ o. if str_eq r.key j then some (batch_row t v r) else o) (same j)
            ∙ ap (λ n. if str_eq r.key j then some (batch_row t n r) else stored t e1 j) h
            ∙ sym (stores.rows j)) in
      subst (λ b. Agree b (write_each (r ∷ rs) e1)) (sym (put_rows-step v r rs e m done))
        (subst (λ s. Agree (put_rows t ((v + 1) % 2 ^ 64) rs (record e { active_mem = m })) s)
          (sym (write_each-step r rs e1 w (write-named r.key r e1 named.0) fine)) rest)

  base_version-next :
      (next n : ℕ) → next < 2 ^ 64 → n < 2 ^ 64 → base_version next n ≡ (next + 1) % 2 ^ 64
  base_version-next next n h k = omega (arith, h, k)

  rotated :
      (b : Option Error × Engine t) (s : Option Engine.Error × Engine t)
      → Agree b s
      → Agree (then_rotate t b) s
  unfolding then_rotate
  rotated (none, e) s a = record {
    fine = refl;
    is_open = ready-IsOpen t e a.is_open;
    each_fine = a.each_fine;
    each_open = a.each_open;
    rows = λ j. stored-ready t e j ∙ a.rows j;
  }
  rotated (some x, e) s a = absurd (cc (a.fine))

  put_batch-each :
      (rows : List WriteRow) (base : ℕ) (e e1 : Engine t)
      → Named rows
      → IsOpen t e
      → IsOpen t e1
      → base ≡ (e1.next_version + 1) % 2 ^ 64
      → ((j : Str) → stored t e j ≡ stored t e1 j)
      → Agree (put_batch t io_fine base rows e) (write_each rows e1)
  unfolding put_batch
  put_batch-each rows base e e1 named opened opened1 h same =
      rotated (put_rows t base rows _) (write_each rows e1)
        (put_rows-each rows base _ e1 named opened opened1 h same)

  write_batch-put :
      (r : WriteRow) (rs : List WriteRow) (e : Engine t)
      → row_without_key 0 (r ∷ rs) ≡ none
      → write_batch t io_fine (r ∷ rs) e
        ≡ put_batch t io_fine
            (base_version e.next_version (length (r ∷ rs)))
            (r ∷ rs)
            (record e { next_version = (e.next_version + length (r ∷ rs)) % 2 ^ 64 })
  unfolding write_batch
  write_batch-put r rs e h = rw (write_batch, h) refl

  write_batch-Agree :
      (rows : List WriteRow) (e : Engine t)
      → IsOpen t e
      → e.next_version < 2 ^ 64
      → length rows < 2 ^ 64
      → row_without_key 0 rows ≡ none
      → Agree (write_batch t io_fine rows e) (write_each rows e)
  unfolding write_batch
  write_batch-Agree [] e opened next short named = record {
    fine = refl;
    is_open = opened;
    each_fine = refl;
    each_open = opened;
    rows = λ j. refl;
  }
  write_batch-Agree (r ∷ rs) e opened next short named =
      subst (λ b. Agree b (write_each (r ∷ rs) e)) (sym (write_batch-put r rs e named))
        (put_batch-each (r ∷ rs) (base_version e.next_version (length (r ∷ rs)))
          (record e { next_version = (e.next_version + length (r ∷ rs)) % 2 ^ 64 }) e
          (row_without_key-Named 0 (r ∷ rs) named) opened opened
          (base_version-next e.next_version (length (r ∷ rs)) next short) (λ j. refl))

-- Over memtables that keep the laws of MemTables, as those of memtable.go do
-- (Storage/Lsm/SkipLists/Tables), on an engine whose active memtable is open and whose last version is below 2 ^ 64, with fewer than
-- 2 ^ 64 rows that all have a key, and with
-- the record written and synced, a batch succeeds, and so do writes of the rows one after the other;
-- both leave the active memtable open, and under every key a reader sees the same row, with the same
-- version, after the one as after the others.
pub batch-each :
    (t : MemTables) (rows : List WriteRow) (e : Engine t)
    → IsOpen t e
    → e.next_version < 2 ^ 64
    → length rows < 2 ^ 64
    → row_without_key 0 rows ≡ none
    → let b = write_batch t io_fine rows e in
      let s = write_each t rows e in
      (b.0 ≡ none)
      × (s.0 ≡ none)
      × IsOpen t b.1
      × IsOpen t s.1
      × ((j : Str) → visible t b.1 j ≡ visible t s.1 j)
batch-each t rows e opened next short named =
    let a = write_batch-Agree t rows e opened next short named in
    (a.fine, a.each_fine, a.is_open, a.each_open, λ j. ap live (a.rows j))
