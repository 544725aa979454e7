-- ===== src/Storage/Wal/Recovery/Replay.antt =====
-- The replay of logged writes.
use mathlib.Core.Path.{subst}
use test_db.Prelude.{
  ℕ, ◌+◌, ◌^◌, ◌≡◌, ◌<◌, refl, sym, ap, ◌∙◌, true, false, Option, none, some, List, [], ◌∷◌, ◌++◌,
  Str, Bytes, arith, length, ltb, leb, if◌then◌else◌, Bool-cases, Option-cases, inl, inr,
}
use test_db.Storage.Row.{Row, Columns, ColumnMeta}
use test_db.Storage.Wal.Codec.{serialize_write_record}
use test_db.Storage.Wal.Codec.RoundTrip.{AllFit, put_columns, deserialize_write-serialize_write}
use test_db.Storage.Wal.Recovery.{
  MemTable, RawRecord, ReadCheckpoint, checkpoint_loop, find_last_checkpoint, type_write,
  type_checkpoint, apply_single_write_record, apply_single_record, write_loop, apply_write_records,
}

-- A write as the engine logs it.
pub record Write : Type 0 where
  pub key : Str
  pub version : ℕ
  pub columns : Columns

abbrev pub WriteFits : Write → Type 0
WriteFits w =
    (length w.key < 2 ^ 16) × (w.version < 2 ^ 64) × (length w.columns < 2 ^ 16) × AllFit w.columns

abbrev pub AllWritesFit : List Write → Type 0
AllWritesFit [] = Unit
AllWritesFit (w ∷ ws) = WriteFits w × AllWritesFit ws

abbrev pub logged : Write → RawRecord
logged w = record { typ = type_write; payload = serialize_write_record w.key w.version w.columns }

-- A record of the log: a write, or a checkpoint with its payload.
pub data Logged : Type 0 where
  wrote : Write → Logged
  checkpointed : Bytes → Logged

abbrev pub record_of : Logged → RawRecord
record_of (wrote w) = logged w
record_of (checkpointed payload) = record { typ = type_checkpoint; payload = payload }

unfoldable pub log_of : List Logged → List RawRecord
log_of [] = []
log_of (l ∷ ls) = record_of l ∷ log_of ls

unfoldable pub writes_of : List Logged → List Write
writes_of [] = []
writes_of (wrote w ∷ ls) = w ∷ writes_of ls
writes_of (checkpointed payload ∷ ls) = writes_of ls

abbrev pub raised : ℕ → Option (ℕ × List ColumnMeta) → ℕ
raised version none = version
raised version (some c) = if ltb version c.0 then c.0 else version

-- The highest version that a checkpoint says to be flushed.
unfoldable pub flushed_version : ReadCheckpoint → ℕ → List Logged → ℕ
flushed_version read version [] = version
flushed_version read version (wrote w ∷ ls) = flushed_version read version ls
flushed_version read version (checkpointed payload ∷ ls) =
    flushed_version read (raised version (read payload)) ls

checkpoint_loop-log_of :
    (read : ReadCheckpoint) (ls : List Logged) (version : ℕ) (meta : List ColumnMeta)
    → (checkpoint_loop read (log_of ls) version meta).0 ≡ flushed_version read version ls
unfolding checkpoint_loop log_of flushed_version
checkpoint_loop-log_of read [] version meta = refl
checkpoint_loop-log_of read (wrote w ∷ ls) version meta =
    checkpoint_loop-log_of read ls version meta
checkpoint_loop-log_of read (checkpointed payload ∷ ls) version meta =
    elim (Option-cases (read payload)) [
      | inl unread ↦ rw (unread) (checkpoint_loop-log_of read ls version meta)
      | inr (c, was) ↦ elim (Bool-cases (ltb version c.0)) [
        | inl higher ↦ rw (was, higher) (checkpoint_loop-log_of read ls c.0 c.1)
        | inr lower ↦ rw (was, lower) (checkpoint_loop-log_of read ls version meta)
      ]
    ]

-- The row that a write is replayed as.
abbrev pub row_of : Write → Row
row_of w = record { version = w.version; columns = put_columns [] w.columns; tombstone = false }

-- The highest version above the one flushed.
unfoldable pub highest_of : ℕ → ℕ → List Write → ℕ
highest_of flushed highest [] = highest
highest_of flushed highest (w ∷ ws) =
    highest_of flushed
      (if leb w.version flushed
        then highest
        else if ltb highest w.version
        then w.version
        else highest)
      ws

-- A log that ends with the record of a delete.
abbrev pub deleted_log : List Logged → Str → ℕ → List RawRecord
deleted_log ls key version =
    log_of (ls ++ wrote (record { key = key; version = version; columns = [] }) ∷ [])

module _ (t : MemTable) where
  -- The writes above the version flushed, in their order.
  unfoldable pub put_all : ℕ → List Write → t.State → t.State
  put_all flushed [] m = m
  put_all flushed (w ∷ ws) m =
      put_all flushed ws (if leb w.version flushed then m else t.put w.key (row_of w) m)

  single_step :
      (w : Write) (flushed : ℕ) (m : t.State)
      → WriteFits w
      → apply_single_record t (logged w) flushed m ≡ (
          if leb w.version flushed
          then (0, true, m)
          else (w.version, true, t.put w.key (row_of w) m))
  unfolding apply_single_record apply_single_write_record
  single_step w flushed m h =
      ground (arith, deserialize_write-serialize_write w.key w.version w.columns h.0 h.1 h.2 h.3)

  loop_step :
      (r : RawRecord) (rs : List RawRecord) (flushed highest failed version : ℕ) (m m' : t.State)
      → apply_single_record t r flushed m ≡ (version, true, m')
      → write_loop t (r ∷ rs) flushed highest failed m
        ≡ write_loop t rs flushed (if ltb highest version then version else highest) failed m'
  unfolding write_loop
  loop_step r rs flushed highest failed version m m' e =
      ap
        (λ p.
          if p.1
          then write_loop t rs flushed (if ltb highest p.0 then p.0 else highest) failed p.2
          else write_loop t rs flushed highest (failed + 1) p.2)
        e

  checkpoint_step :
      (payload : Bytes) (flushed : ℕ) (m : t.State)
      → apply_single_record t (record { typ = type_checkpoint; payload = payload }) flushed m
        ≡ (0, true, m)
  unfolding apply_single_record
  checkpoint_step payload flushed m = refl

  skipped_step :
      (r : RawRecord) (rs : List RawRecord) (flushed highest failed : ℕ) (m : t.State)
      → apply_single_record t r flushed m ≡ (0, true, m)
      → write_loop t (r ∷ rs) flushed highest failed m ≡ write_loop t rs flushed highest failed m
  skipped_step r rs flushed highest failed m h =
      let none_higher : (if ltb highest 0 then 0 else highest) ≡ highest = ground arith in
      loop_step r rs flushed highest failed 0 m m h
      ∙ ap (λ n. write_loop t rs flushed n failed m) none_higher

  -- The loop puts the writes above the version flushed, in their order, and fails on none.
  write_loop-log_of :
      (ls : List Logged) (flushed highest failed : ℕ) (m : t.State)
      → AllWritesFit (writes_of ls)
      → write_loop t (log_of ls) flushed highest failed m
        ≡ (highest_of flushed highest (writes_of ls), failed, put_all flushed (writes_of ls) m)
  unfolding log_of writes_of highest_of put_all
  write_loop-log_of [] flushed highest failed m h = unfold write_loop in refl
  write_loop-log_of (checkpointed payload ∷ ls) flushed highest failed m h =
      skipped_step (record_of (checkpointed payload)) (log_of ls) flushed highest failed m
        (checkpoint_step payload flushed m)
      ∙ write_loop-log_of ls flushed highest failed m h
  write_loop-log_of (wrote w ∷ ls) flushed highest failed m h =
      let step = single_step w flushed m h.0 in
      let m' = t.put w.key (row_of w) m in
      elim (Bool-cases (leb w.version flushed)) [
        | inl old ↦
            let same : apply_single_record t (logged w) flushed m ≡ (0, true, m) =
              step ∙ ap (λ b. if b then (0, true, m) else (w.version, true, m')) old in
            rw (highest_of, put_all, old)
              (skipped_step (logged w) (log_of ls) flushed highest failed m same
                ∙ write_loop-log_of ls flushed highest failed m h.1)
        | inr fresh ↦
            let put_it : apply_single_record t (logged w) flushed m ≡ (w.version, true, m') =
              step ∙ ap (λ b. if b then (0, true, m) else (w.version, true, m')) fresh in
            rw (highest_of, put_all, fresh)
              (loop_step (logged w) (log_of ls) flushed highest failed w.version m m' put_it
                ∙ write_loop-log_of ls flushed
                    (if ltb highest w.version then w.version else highest) failed m' h.1)
      ]

  -- For a memtable that keeps the laws of Recovery.MemTable, as that of memtable.go does
  -- (Storage/Lsm/SkipLists/Tables): of a log of writes that were made one by one, with keys and columns
  -- that the log can hold, and of checkpoints, a restart finds the highest version that a readable checkpoint names, or 0 if there is
  -- none, and puts exactly the writes above it, in their order; it fails on none, and reports the
  -- highest of their versions.
  pub apply_write_records-log_of :
      (read : ReadCheckpoint) (ls : List Logged) (m : t.State)
      → AllWritesFit (writes_of ls)
      → let flushed = flushed_version read 0 ls in
        ((find_last_checkpoint read (log_of ls)).0 ≡ flushed)
        × (apply_write_records t (log_of ls) (find_last_checkpoint read (log_of ls)).0 m
            ≡ (highest_of flushed 0 (writes_of ls), 0, put_all flushed (writes_of ls) m))
  unfolding apply_write_records find_last_checkpoint
  apply_write_records-log_of read ls m h =
      let last = checkpoint_loop-log_of read ls 0 [] in
      (
        last,
        ap (λ v. write_loop t (log_of ls) v 0 0 m) last
            ∙ write_loop-log_of ls (flushed_version read 0 ls) 0 0 m h,
      )

  writes_of-last :
      (ls : List Logged) (w : Write) → writes_of (ls ++ wrote w ∷ []) ≡ writes_of ls ++ w ∷ []
  unfolding writes_of
  writes_of-last [] w = refl
  writes_of-last (wrote v ∷ ls) w = ap (λ ws. v ∷ ws) (writes_of-last ls w)
  writes_of-last (checkpointed payload ∷ ls) w = writes_of-last ls w

  all_fit-last :
      (ws : List Write) (w : Write) → AllWritesFit ws → WriteFits w → AllWritesFit (ws ++ w ∷ [])
  all_fit-last [] w h g = (g, tt)
  all_fit-last (v ∷ ws) w h g = (h.0, all_fit-last ws w h.1 g)

  put_all-last :
      (flushed : ℕ) (ws : List Write) (w : Write) (m : t.State)
      → leb w.version flushed ≡ false
      → put_all flushed (ws ++ w ∷ []) m ≡ t.put w.key (row_of w) (put_all flushed ws m)
  unfolding put_all
  put_all-last flushed [] w m h = rw (h) refl
  put_all-last flushed (v ∷ ws) w m h = put_all-last flushed ws w _ h

  is_frozen-put_all :
      (flushed : ℕ) (ws : List Write) (m : t.State)
      → t.is_frozen (put_all flushed ws m) ≡ t.is_frozen m
  unfolding put_all
  is_frozen-put_all flushed [] m = refl
  is_frozen-put_all flushed (w ∷ ws) m = elim (Bool-cases (leb w.version flushed)) [
    | inl old ↦ rw (old) (is_frozen-put_all flushed ws m)
    | inr fresh ↦ rw (fresh) (
        is_frozen-put_all flushed ws (t.put w.key (row_of w) m)
        ∙ t.put-is_frozen w.key (row_of w) m)
  ]

  -- For a memtable that keeps the laws of Recovery.MemTable, as that of memtable.go does
  -- (Storage/Lsm/SkipLists/Tables): when a restart replays, into a table that is not
  -- frozen, a log of writes and checkpoints that ends with a delete of a key shorter than 2 ^ 16 bytes,
  -- where the log can hold the other writes and the delete's version is below 2 ^ 64 and above those of
  -- all readable checkpoints, the table holds a row without columns under the key, which no tombstone
  -- marks as deleted.
  pub get-replayed_delete :
      (read : ReadCheckpoint) (ls : List Logged) (key : Str) (version : ℕ) (m : t.State)
      → AllWritesFit (writes_of ls)
      → length key < 2 ^ 16
      → version < 2 ^ 64
      → leb version (find_last_checkpoint read (deleted_log ls key version)).0 ≡ false
      → t.is_frozen m ≡ false
      → t.get key
          (apply_write_records t
            (deleted_log ls key version)
            (find_last_checkpoint read (deleted_log ls key version)).0
            m).2
        ≡ some (record { version = version; columns = []; tombstone = false })
  get-replayed_delete read ls key version m fit hk hv fresh thawed =
      let w : Write = record { key = key; version = version; columns = [] } in
      let all = ls ++ wrote w ∷ [] in
      let flushed = flushed_version read 0 all in
      let writes = writes_of-last ls w in
      let (found, applied) = apply_write_records-log_of read all m (
        subst AllWritesFit (sym writes)
          (all_fit-last (writes_of ls) w fit (hk, hv, (omega arith), tt))) in
      let above : leb version flushed ≡ false = ap (leb version) (sym found) ∙ fresh in
      ap (λ r. t.get key r.2) applied
      ∙ ap (λ ws. t.get key (put_all flushed ws m)) writes
      ∙ ap (t.get key) (put_all-last flushed (writes_of ls) w m above)
      ∙ t.get-put key (row_of w) (put_all flushed (writes_of ls) m)
          (is_frozen-put_all flushed (writes_of ls) m ∙ thawed)
      ∙ (unfold put_columns in refl)
