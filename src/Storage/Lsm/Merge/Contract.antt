-- ===== src/Storage/Lsm/Merge/Contract.antt =====
-- What a scan over several sources returns.
use mathlib.Core.Path.{subst}
use test_db.Prelude.{
  ℕ, zero, suc, ◌<◌, ◌≡◌, refl, sym, ap, ◌∙◌, arith, true, false, none, some, List, [], ◌∷◌, Str,
  str_eq, str_ltb, if◌then◌else◌, Option-cases, inl, inr,
}
use test_db.Storage.Row.{Row, ScanEntry}
use test_db.Storage.Lsm.Merge.{
  Source, MergeIterator, heap_top, advance, entry_at, entries_ahead, skip_key, take_top,
  advance_first, advance_next, next, entries, with_entry, last_scan, collect, scan_sources,
  empty_entry, new_merge_iterator,
}
use test_db.Storage.Lsm.Merge.Sources.{
  Above, AllAscending, AllAbove, AllAtLeast, row_of, AtLeast-Above, Above-AtLeast, IsTop, HeadIs,
  IsTop-AllAtLeast, AllEmpty-AllAbove, heap_top-none, newest-AllAbove,
}
use test_db.Storage.Lsm.Merge.Front.{
  advance-AllAscending, advance-AllAtLeast, entries_ahead-advance, NoFailure, advance-NoFailure,
  first_failure-none,
}
use test_db.Storage.Lsm.Merge.Steps.{
  running, set_current-running, front_place, Skipped, skip_key-Skipped,
}
use test_db.Storage.Lsm.Merge.Kept.{live, IsScanOf, IsScanFrom, kept, kept-Above, kept-IsScanOf}

-- A step of the scan's loop.
collect-more :
    (fuel : ℕ) (m m' : MergeIterator)
    → next m ≡ (true, m')
    → collect (suc fuel) m ≡ with_entry m'.current (collect fuel m')
unfolding collect
collect-more fuel m m' h =
    ap (λ r. if r.0 then with_entry r.1.current (collect fuel r.1) else last_scan r.1.err) h

collect-last :
    (fuel : ℕ) (m m' : MergeIterator)
    → next m ≡ (false, m')
    → collect (suc fuel) m ≡ last_scan m'.err
unfolding collect
collect-last fuel m m' h =
    ap (λ r. if r.0 then with_entry r.1.current (collect fuel r.1) else last_scan r.1.err) h

with_entry-kept :
    (e : ScanEntry) (es : List ScanEntry) → with_entry e (entries es) ≡ entries (kept e es)
unfolding with_entry
with_entry-kept e es = ground arith

take_top-more :
    (ss : List Source) (e : ScanEntry) (k : Str) (d : ℕ)
    → NoFailure ss
    → heap_top 0 ss ≡ some (k, d)
    → take_top (running ss e)
      ≡ (true, running (advance d ss) (record { key = k; value = (entry_at d ss).value }))
unfolding take_top
take_top-more ss e k d n h = rw (h) (ap (λ m. (true, m)) (set_current-running k d ss e n))

take_top-last :
    (ss : List Source) (e : ScanEntry)
    → heap_top 0 ss ≡ none
    → take_top (running ss e) ≡ (false, record (running ss e) { finished = true })
unfolding take_top
take_top-last ss e h = rw (h) refl

next-running :
    (ss : List Source) (e : ScanEntry)
    → next (running ss e) ≡ take_top (skip_key (entries_ahead ss) e.key (running ss e))
unfolding next advance_next
next-running ss e = refl

next-first :
    (ss : List Source)
    → NoFailure ss
    → next (new_merge_iterator ss) ≡ advance_first (new_merge_iterator ss)
unfolding next new_merge_iterator
next-first ss n = rw (first_failure-none ss n) refl

before : (p j : Str) → str_ltb p j ≡ true → str_eq p j ≡ false
before p j h = ground (arith, h)

head-Above : (p k : Str) (es : List ScanEntry) → Above p es → HeadIs k es → str_ltb p k ≡ true
head-Above p k [] a h = absurd h
head-Above p k (e ∷ es) a h = subst (λ x. str_ltb p x ≡ true) h a.0

IsTop-above :
    (p k : Str) (d : ℕ) (ss : List Source) → AllAbove p ss → IsTop k d ss → str_ltb p k ≡ true
IsTop-above p k d [] a t = absurd t
IsTop-above p k zero (s ∷ ss) a t = head-Above p k s.ahead a.0 t.0
IsTop-above p k (suc d) (s ∷ ss) a t = IsTop-above p k d ss a.1 t.1

-- A scan of what is left once the entries of a key are skipped.
scan_behind :
    (fuel : ℕ) (p : Str) (ss : List Source) (e : ScanEntry) (r : Skipped fuel p ss e)
    (es : List ScanEntry)
    → IsScanOf r.rest es
    → Above p es
    → IsScanFrom p ss es
scan_behind fuel p ss e r es s b = record {
  above = b;
  ascending = s.ascending;
  rows = λ j h. s.rows j ∙ ap live (r.others j (before p j h));
}

empty-IsScanOf : (ss : List Source) → heap_top 0 ss ≡ none → IsScanOf ss []
unfolding row_of
empty-IsScanOf ss h = record {
  ascending = tt;
  rows = λ j. ap live (sym (newest-AllAbove j ss (AllEmpty-AllAbove j ss (heap_top-none 0 ss h))));
}

-- The scan from a key on, whose entries are still ahead.
collect_from :
    (fuel : ℕ) (p : Str) (v : Row) (ss : List Source)
    → AllAscending ss
    → AllAtLeast p ss
    → NoFailure ss
    → entries_ahead ss < fuel
    → (es : List ScanEntry) × (collect fuel (running ss (record { key = p; value = v }))
        ≡ entries es)
      × IsScanFrom p ss es
collect_from zero p v ss a l n h = absurd (omega (arith, h))
collect_from (suc fuel) p v ss a l n h =
    let e : ScanEntry = record { key = p; value = v } in
    let r = skip_key-Skipped (entries_ahead ss) p ss e a l n (omega arith) in
    let stepped = next-running ss e ∙ ap take_top r.reached in
    elim (Option-cases (heap_top 0 r.rest)) [
      | inl empty ↦ (
        [],
        collect-last fuel (running ss e) _ (stepped ∙ take_top-last r.rest e empty),
        scan_behind (entries_ahead ss) p ss e r [] (empty-IsScanOf r.rest empty) tt,
      )
      | inr ((k, d), front) ↦
          let top = front_place r.rest k d r.ascending front in
          let value = (entry_at d r.rest).value in
          let (es, got, scan) =
            collect_from fuel k value (advance d r.rest) (advance-AllAscending d r.rest r.ascending)
              (advance-AllAtLeast k d r.rest (IsTop-AllAtLeast k d r.rest r.ascending top))
              (advance-NoFailure d r.rest r.clean)
              (omega (arith, h, r.fewer, entries_ahead-advance k d r.rest top)) in
          (
            kept (record { key = k; value = value }) es,
            collect-more fuel (running ss e) _ (stepped ∙ take_top-more r.rest e k d r.clean front)
                ∙ ap (with_entry (record { key = k; value = value })) got
                ∙ with_entry-kept (record { key = k; value = value }) es,
            scan_behind (entries_ahead ss) p ss e r (kept (record { key = k; value = value }) es)
                (kept-IsScanOf k d r.rest es r.ascending top scan)
                (kept-Above p (record { key = k; value = value }) es
                  (IsTop-above p k d r.rest r.above top)
                  (AtLeast-Above p k es (IsTop-above p k d r.rest r.above top)
                    (Above-AtLeast k es scan.above))),
          )
    ]

first-more :
    (ss : List Source) (k : Str) (d : ℕ)
    → NoFailure ss
    → heap_top 0 ss ≡ some (k, d)
    → next (new_merge_iterator ss)
      ≡ (true, running (advance d ss) (record { key = k; value = (entry_at d ss).value }))
unfolding advance_first new_merge_iterator
first-more ss k d n h =
    next-first ss n
    ∙ rw (h, first_failure-none ss n)
        (ap (λ m. (true, m)) (set_current-running k d ss empty_entry n))

first-last :
    (ss : List Source)
    → NoFailure ss
    → heap_top 0 ss ≡ none
    → next (new_merge_iterator ss) ≡ (false, record (new_merge_iterator ss) { finished = true })
unfolding advance_first new_merge_iterator
first-last ss n h = next-first ss n ∙ rw (h) refl

-- A scan over sources that are sorted and end without an error comes to its end, and returns the
-- entries with strictly rising keys that hold, for every key, the row of the newest source that has
-- the key, unless that row is a tombstone.
pub scan_sources-IsScanOf :
    (ss : List Source)
    → AllAscending ss
    → NoFailure ss
    → (es : List ScanEntry) × (scan_sources ss ≡ entries es) × IsScanOf ss es
unfolding scan_sources
scan_sources-IsScanOf ss a n = elim (Option-cases (heap_top 0 ss)) [
  | inl empty ↦ (
    [],
    collect-last (entries_ahead ss) (new_merge_iterator ss) _ (first-last ss n empty)
        ∙ ap last_scan (first_failure-none ss n),
    empty-IsScanOf ss empty,
  )
  | inr ((k, d), front) ↦
      let top = front_place ss k d a front in
      let value = (entry_at d ss).value in
      let (es, got, scan) =
        collect_from (entries_ahead ss) k value (advance d ss) (advance-AllAscending d ss a)
          (advance-AllAtLeast k d ss (IsTop-AllAtLeast k d ss a top)) (advance-NoFailure d ss n)
          (omega (arith, entries_ahead-advance k d ss top)) in
      (
        kept (record { key = k; value = value }) es,
        collect-more (entries_ahead ss) (new_merge_iterator ss) _ (first-more ss k d n front)
            ∙ ap (with_entry (record { key = k; value = value })) got
            ∙ with_entry-kept (record { key = k; value = value }) es,
        kept-IsScanOf k d ss es a top scan,
      )
]
