-- ===== src/Storage/Lsm/Merge.antt =====
-- pkg/storage/iterator.go: iterators over sorted rows, merged by a heap so that of the rows of one key
-- the newest source's is returned, and the scan that collects them.
pub mod Sources
pub mod Front
pub mod Steps
pub mod Kept
pub mod Contract
use test_db.Prelude.{
  ℕ, zero, suc, ◌+◌, Bool, true, false, not, ◌&&◌, ◌||◌, Option, none, some, List, [], ◌∷◌, Str,
  str_eq, str_ltb, ltb, if◌then◌else◌, length,
}
use test_db.Storage.Row.{Row, ScanEntry}

-- A ScanIterator: the entries that stand ahead of it, and the error that it ends with, if any.
pub record Source : Type 0 where
  pub ahead : List ScanEntry
  pub failure : Option Str

-- A heap entry's key and index, and mergeHeap.Less.
abbrev pub Top : Type 0
Top = Str × ℕ

unfoldable pub heap_less : Top → Top → Bool
heap_less (k, i) (l, j) = if str_eq k l then ltb j i else str_ltb k l

-- The heap holds the sources that have an entry ahead; `heap_top i` is the least of them under Less,
-- which the heap keeps at its front, where the first of the list has the index `i`.
unfoldable pub least_top : Top → Option Top → Option Top
unfolding heap_less
least_top t none = some t
least_top t (some u) = if heap_less u t then some u else some t

unfoldable pub head_top : ℕ → List ScanEntry → Option Top → Option Top
unfolding least_top
head_top i [] rest = rest
head_top i (e ∷ es) rest = least_top (e.key, i) rest

unfoldable pub heap_top : ℕ → List Source → Option Top
unfolding head_top
heap_top i [] = none
heap_top i (s ∷ ss) = head_top i s.ahead (heap_top (suc i) ss)

pub record MergeIterator : Type 0 where
  pub sources : List Source
  pub current : ScanEntry
  pub err : Option Str
  pub started : Bool
  pub finished : Bool

abbrev empty_row : Row
empty_row = record { version = 0; columns = []; tombstone = false }

abbrev pub empty_entry : ScanEntry
empty_entry = record { key = []; value = empty_row }

abbrev has_error : Option Str → Bool
has_error none = false
has_error (some x) = true

-- The error of the first source that has nothing ahead and an error.
unfoldable pub first_failure : List Source → Option Str
first_failure [] = none
first_failure (s ∷ ss) = elim s.ahead [
  | [] ↦ elim s.failure [ none ↦ first_failure ss | some x ↦ some x ]
  | e ∷ es ↦ first_failure ss
]

unfoldable pub new_merge_iterator : List Source → MergeIterator
unfolding first_failure
new_merge_iterator ss = record {
  sources = ss;
  current = empty_entry;
  err = first_failure ss;
  started = false;
  finished = false;
}

-- The entry at which an iterator stands, and what is left when it moves on.
abbrev pub head_of : List ScanEntry → ScanEntry
head_of [] = empty_entry
head_of (e ∷ es) = e

abbrev pub tail_of : List ScanEntry → List ScanEntry
tail_of [] = []
tail_of (e ∷ es) = es

-- The source moves on to its next entry; the error is that of a source that has come to its end.
unfoldable pub advance : ℕ → List Source → List Source
advance i [] = []
advance zero (s ∷ ss) = record s { ahead = tail_of s.ahead } ∷ ss
advance (suc i) (s ∷ ss) = s ∷ advance i ss

unfoldable pub ended_with : ℕ → List Source → Option Str
ended_with i [] = none
ended_with zero (s ∷ ss) = elim s.ahead [ [] ↦ s.failure | e ∷ es ↦ none ]
ended_with (suc i) (s ∷ ss) = ended_with i ss

unfoldable pub first_error : Option Str → Option Str → Option Str
first_error none x = x
first_error (some e) x = some e

unfoldable pub advance_heap_top : ℕ → MergeIterator → MergeIterator
unfolding advance ended_with first_error
advance_heap_top i m =
    let ss = advance i m.sources in
    record m { sources = ss; err = first_error m.err (ended_with i ss) }

-- The entry at which a source stands.
unfoldable pub entry_at : ℕ → List Source → ScanEntry
entry_at i [] = empty_entry
entry_at zero (s ∷ ss) = head_of s.ahead
entry_at (suc i) (s ∷ ss) = entry_at i ss

unfoldable pub set_current_from_heap_top : Top → MergeIterator → MergeIterator
unfolding entry_at advance_heap_top
set_current_from_heap_top (key, i) m =
    advance_heap_top i
      (record m { current = record { key = key; value = (entry_at i m.sources).value } })

unfoldable pub advance_first : MergeIterator → Bool × MergeIterator
unfolding heap_top set_current_from_heap_top
advance_first m = elim (heap_top 0 m.sources) [
  | none ↦ (false, record m { finished = true })
  | some t ↦ (true, set_current_from_heap_top t (record m { started = true }))
]

-- The loop of advanceNext; the fuel is the number of entries ahead.
unfoldable pub skip_key : ℕ → Str → MergeIterator → MergeIterator
unfolding heap_top advance_heap_top
skip_key zero key m = m
skip_key (suc fuel) key m = elim (heap_top 0 m.sources) [
  | none ↦ m
  | some (k, i) ↦ if str_eq k key then skip_key fuel key (advance_heap_top i m) else m
]

unfoldable pub entries_ahead : List Source → ℕ
entries_ahead [] = 0
entries_ahead (s ∷ ss) = length s.ahead + entries_ahead ss

unfoldable pub take_top : MergeIterator → Bool × MergeIterator
unfolding heap_top set_current_from_heap_top
take_top m = elim (heap_top 0 m.sources) [
  | none ↦ (false, record m { finished = true })
  | some t ↦ (true, set_current_from_heap_top t m)
]

unfoldable pub advance_next : MergeIterator → Bool × MergeIterator
unfolding skip_key entries_ahead take_top
advance_next m = take_top (skip_key (entries_ahead m.sources) m.current.key m)

unfoldable pub next : MergeIterator → Bool × MergeIterator
unfolding advance_first advance_next
next m =
    if m.finished || has_error m.err
    then (false, m)
    else if not m.started
    then advance_first m
    else advance_next m

-- What a scan returns: the entries, or the error of a source. `out_of_fuel` is no result of the code.
pub data Scan : Type 0 where
  entries : List ScanEntry → Scan
  failed : Str → Scan
  out_of_fuel : Scan

-- results = append(results, entry)
unfoldable pub with_entry : ScanEntry → Scan → Scan
with_entry e (entries es) = if e.value.tombstone then entries es else entries (e ∷ es)
with_entry e (failed x) = failed x
with_entry e out_of_fuel = out_of_fuel

-- What is returned after the loop.
abbrev pub last_scan : Option Str → Scan
last_scan none = entries []
last_scan (some x) = failed x

-- The loop of scanRangeUnlocked.
unfoldable pub collect : ℕ → MergeIterator → Scan
unfolding next with_entry
collect zero m = out_of_fuel
collect (suc fuel) m =
    let step = next m in
    let rest = collect fuel step.1 in
    if step.0 then with_entry step.1.current rest else last_scan step.1.err

unfoldable pub scan_sources : List Source → Scan
unfolding collect new_merge_iterator entries_ahead
scan_sources ss = collect (suc (entries_ahead ss)) (new_merge_iterator ss)
