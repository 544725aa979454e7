-- ===== src/Storage/Lsm/Engine/Writes.antt =====
-- What writes and deletes make visible.
use mathlib.Core.Path.{subst}
use test_db.Prelude.{
  ◌≡◌, refl, sym, ap, ◌∙◌, arith, Bool, true, false, Option, none, some, List, [], ◌∷◌, ◌++◌, Str,
  str_eq, ◌==◌, if◌then◌else◌, Bool-cases, inl, inr,
}
use test_db.Storage.Row.{Row, Columns}
use test_db.Storage.Wal.Codec.{serialize_write_record}
use test_db.Storage.Wal.Recovery.{type_write}
use test_db.Storage.Lsm.Merge.Sources.{row_of, or_else}
use test_db.Storage.Lsm.Merge.Kept.{live}
use test_db.Storage.Lsm.Engine.{
  MemTables, Engine, Io, rotate_mem_table, put_active, read_only, write_row, write, delete,
  next_row,
}
use test_db.Storage.Lsm.Engine.Scans.{newest_in, rows_of_segment, or_else-none, or_else_assoc}
use test_db.Storage.Lsm.Engine.Visible.{stored, visible}

module _ (t : MemTables) where
  newest_in-last :
      (j : Str) (ms : List t.State) (m : t.State)
      → newest_in t.entries j (ms ++ m ∷ [])
        ≡ or_else (row_of j (t.entries m)) (newest_in t.entries j ms)
  newest_in-last j [] m = or_else-none (row_of j (t.entries m))
  newest_in-last j (x ∷ ms) m =
      ap (λ o. or_else o (row_of j (t.entries x))) (newest_in-last j ms m)
      ∙ or_else_assoc (row_of j (t.entries m)) (newest_in t.entries j ms) (row_of j (t.entries x))

  row_of-empty : (j : Str) → row_of j (t.entries t.empty) ≡ none
  unfolding row_of
  row_of-empty j = ap (row_of j) t.entries-empty

  -- A full memtable that is frozen and put behind the frozen ones stays in sight.
  moved :
      (j : Str) (m : t.State) (ms : List t.State) (s : Option Row)
      → or_else
          (row_of j (t.entries t.empty))
          (or_else (newest_in t.entries j (ms ++ t.freeze m ∷ [])) s)
        ≡ or_else (row_of j (t.entries m)) (or_else (newest_in t.entries j ms) s)
  moved j m ms s =
      ap (λ o. or_else o (or_else (newest_in t.entries j (ms ++ t.freeze m ∷ [])) s))
        (row_of-empty j)
      ∙ ap (λ o. or_else o s) (newest_in-last j ms (t.freeze m))
      ∙ ap (λ l. or_else (or_else (row_of j l) (newest_in t.entries j ms)) s) (t.entries-freeze m)
      ∙ or_else_assoc (row_of j (t.entries m)) (newest_in t.entries j ms) s

  -- A rotation moves no row out of sight.
  stored-rotate : (e : Engine t) (j : Str) → stored t (rotate_mem_table t e) j ≡ stored t e j
  unfolding rotate_mem_table
  stored-rotate e j = elim (Bool-cases (t.len e.active_mem == 0)) [
    | inl empty ↦ rw (empty) refl
    | inr full ↦
        rw (full) (moved j e.active_mem e.immutable (newest_in rows_of_segment j e.segments))
  ]

  -- The active memtable takes writes.
  abbrev pub IsOpen : Engine t → Type 0
  IsOpen e = t.is_frozen e.active_mem ≡ false

  rotate-IsOpen : (e : Engine t) → IsOpen e → IsOpen (rotate_mem_table t e)
  unfolding rotate_mem_table
  rotate-IsOpen e h = elim (Bool-cases (t.len e.active_mem == 0)) [
    | inl empty ↦ rw (empty) h
    | inr full ↦ rw (full) t.empty_is_frozen
  ]

  -- The engine as Put finds it.
  abbrev pub ready : Engine t → Engine t
  ready e = if t.should_flush e.active_mem then rotate_mem_table t e else e

  pub stored-ready : (e : Engine t) (j : Str) → stored t (ready e) j ≡ stored t e j
  stored-ready e j = elim (Bool-cases (t.should_flush e.active_mem)) [
    | inl full ↦ rw (full) (stored-rotate e j)
    | inr room ↦ rw (room) refl
  ]

  pub ready-IsOpen : (e : Engine t) → IsOpen e → IsOpen (ready e)
  ready-IsOpen e h = elim (Bool-cases (t.should_flush e.active_mem)) [
    | inl full ↦ rw (full) (rotate-IsOpen e h)
    | inr room ↦ rw (room) h
  ]

  -- A row that is put stands before all others of its key.
  pub record Stores (key : Str) (row : Row) (e e' : Engine t) : Type 0 where
    pub is_open : IsOpen e'
    pub rows : (j : Str) → stored t e' j ≡ (if str_eq key j then some row else stored t e j)

  put_result :
      (key : Str) (row : Row) (e : Engine t) (m : t.State)
      → t.put key row (ready e).active_mem ≡ some m
      → put_active t key row e ≡ (none, record (ready e) { active_mem = m })
  unfolding put_active
  put_result key row e m h =
      ap
        (λ o. elim o [
          | none ↦ (some read_only, ready e)
          | some x ↦ (none, record (ready e) { active_mem = x })
        ])
        h

  or_else-if :
      (b : Bool) (r : Row) (x y : Option Row)
      → or_else (if b then some r else x) y ≡ (if b then some r else or_else x y)
  or_else-if true r x y = refl
  or_else-if false r x y = refl

  pub put_now-Stores :
      (key : Str) (row : Row) (e : Engine t) (m : t.State)
      → t.put key row e.active_mem ≡ some m
      → Stores key row e (record e { active_mem = m })
  put_now-Stores key row e m h = record {
    is_open = t.put-is_frozen key row e.active_mem m h;
    rows = λ j.
        let rest =
          or_else (newest_in t.entries j e.immutable) (newest_in rows_of_segment j e.segments) in
        ap (λ o. or_else o rest) (t.entries-put key j row e.active_mem m h)
        ∙ or_else-if (str_eq key j) row (row_of j (t.entries e.active_mem)) rest;
  }

  put-Stores :
      (key : Str) (row : Row) (e : Engine t) (m : t.State)
      → t.put key row (ready e).active_mem ≡ some m
      → Stores key row e (record (ready e) { active_mem = m })
  put-Stores key row e m h =
      let stores = put_now-Stores key row (ready e) m h in
      record {
        is_open = stores.is_open;
        rows =
            λ j. stores.rows j ∙ ap (λ o. if str_eq key j then some row else o) (stored-ready e j);
      }

  put_active-Stores :
      (key : Str) (row : Row) (e : Engine t)
      → IsOpen e
      → ((put_active t key row e).0 ≡ none) × Stores key row e (put_active t key row e).1
  put_active-Stores key row e h =
      let (m, done) = t.put-some key row (ready e).active_mem (ready-IsOpen e h) in
      let result = put_result key row e m done in
      (
        ap (λ r. r.0) result,
        subst (λ r. Stores key row e r.1) (sym result) (put-Stores key row e m done),
      )

  -- A write or a delete whose record is in the log and synced.
  pub write_row-Stores :
      (key : Str) (row : Row) (e : Engine t)
      → IsOpen e
      → let r = write_row t (record { appended = none; synced = none }) key row e in
        (r.0 ≡ none) × Stores key row e r.1
  unfolding write_row
  write_row-Stores key row e h =
      let logged : Engine t = record e {
        next_version = row.version;
        log =
            e.log
            ++ record {
              typ = type_write;
              payload = serialize_write_record key row.version row.columns;
            }
              ∷ [];
      } in
      let (fine, stores) = put_active-Stores key row logged h in
      (fine, record { is_open = stores.is_open; rows = stores.rows })

  ready-next_version : (e : Engine t) → (ready e).next_version ≡ e.next_version
  unfolding rotate_mem_table
  ready-next_version e = ground arith

  -- The row's version is the last one given out.
  pub write_row-next_version :
      (key : Str) (row : Row) (e : Engine t)
      → IsOpen e
      → (write_row t (record { appended = none; synced = none }) key row e).1.next_version
        ≡ row.version
  unfolding write_row
  write_row-next_version key row e h =
      let logged : Engine t = record e {
        next_version = row.version;
        log =
            e.log
            ++ record {
              typ = type_write;
              payload = serialize_write_record key row.version row.columns;
            }
              ∷ [];
      } in
      let (m, done) = t.put-some key row (ready logged).active_mem (ready-IsOpen logged h) in
      ap (λ r. r.1.next_version) (put_result key row logged m done) ∙ ready-next_version logged

  live-if :
      (b : Bool) (r : Row) (x : Option Row)
      → live (if b then some r else x) ≡ (if b then live (some r) else live x)
  live-if true r x = refl
  live-if false r x = refl

-- Success of the log.
abbrev pub io_fine : Io
io_fine = record { appended = none; synced = none }

-- Over memtables that keep the laws of MemTables, as those of memtable.go do
-- (Storage/Lsm/SkipLists/Tables), on an engine whose active memtable is open, under a key that is not empty and with the record
-- written and synced, a write and a delete succeed and leave the active memtable open. Afterwards the
-- key shows the row written, with the next version, or no row; every other key shows what it showed.
pub visible-write-delete :
    (t : MemTables) (key : Str) (values : Columns) (e : Engine t)
    → IsOpen t e
    → str_eq key [] ≡ false
    → let w = write t io_fine key values e in
      let d = delete t io_fine key e in
      (w.0 ≡ none)
      × IsOpen t w.1
      × ((j : Str)
          → visible t w.1 j
            ≡ (if str_eq key j then some (next_row t values false e) else visible t e j))
      × (d.0 ≡ none)
      × IsOpen t d.1
      × ((j : Str) → visible t d.1 j ≡ (if str_eq key j then none else visible t e j))
unfolding write delete
visible-write-delete t key values e h named =
    let (fine, stores) = write_row-Stores t key (next_row t values false e) e h in
    let (gone, buries) = write_row-Stores t key (next_row t [] true e) e h in
    rw (named) (
      fine,
      stores.is_open,
      λ j.
          ap live (stores.rows j)
          ∙ live-if t (str_eq key j) (next_row t values false e) (stored t e j),
      gone,
      buries.is_open,
      λ j. ap live (buries.rows j) ∙ live-if t (str_eq key j) (next_row t [] true e) (stored t e j),
    )
