-- ===== src/Storage/Lsm/Pruning/Selected.antt =====
-- What is left of the rows that a condition selects, and of a scan, when segments are left out.
use mathlib.Core.Path.{subst}
use test_db.Prelude.{
  ℕ, zero, suc, ◌≡◌, refl, sym, ap, ◌∙◌, arith, Bool, true, false, ◌&&◌, Option, none, some, List,
  [], ◌∷◌, Str, str_eq, if◌then◌else◌, filter, All, Bool-cases, Option-cases, inl, inr,
}
use test_db.Storage.Row.{Row, ScanEntry}
use test_db.Storage.Lsm.Merge.{
  Source, Scan, entries, failed, out_of_fuel, MergeIterator, next, with_entry, last_scan, collect,
  scan_sources,
}
use test_db.Storage.Lsm.Merge.Sources.{row_of, or_else}
use test_db.Storage.Lsm.Merge.Kept.{live}
use test_db.Storage.Lsm.Segment.{Segment}
use test_db.Storage.Lsm.Engine.Scans.{newest_in, rows_of_segment}
use test_db.Storage.Lsm.Pruning.{collect_logged, scan_logged}

-- What stands behind an entry of a scan that does not fail.
behind :
    (c : ScanEntry) (s : Scan) (es : List ScanEntry)
    → with_entry c s ≡ entries es
    → (rest : List ScanEntry) × (s ≡ entries rest)
unfolding with_entry
behind c (entries rest) es h = (rest, refl)
behind c (failed x) es h = absurd (cc (h))
behind c out_of_fuel es h = absurd (cc (h))

no_error :
    (o : Option Str) (es : List ScanEntry) → last_scan o ≡ entries es → entries [] ≡ entries es
no_error none es h = h
no_error (some x) es h = absurd (cc (h))

-- Where the loop does not fail, logging errors makes no difference.
collect_logged-entries :
    (fuel : ℕ) (m : MergeIterator) (es : List ScanEntry)
    → collect fuel m ≡ entries es
    → collect_logged fuel m ≡ entries es
unfolding collect collect_logged
collect_logged-entries zero m es h = absurd (cc (h))
collect_logged-entries (suc fuel) m es h = elim (Bool-cases (next m).0) [
  | inl more ↦
      let found =
        ap
          (λ b.
            if b
            then with_entry (next m).1.current (collect fuel (next m).1)
            else last_scan (next m).1.err)
          (sym more)
        ∙ h in
      let (rest, got) = behind (next m).1.current (collect fuel (next m).1) es found in
      rw (more) (
        ap (with_entry (next m).1.current)
          (collect_logged-entries fuel (next m).1 rest got ∙ sym got)
        ∙ found)
  | inr done ↦ rw (done) (
      no_error (next m).1.err es (
        ap
          (λ b.
            if b
            then with_entry (next m).1.current (collect fuel (next m).1)
            else last_scan (next m).1.err)
          (sym done)
        ∙ h))
]

pub scan_logged-entries :
    (ss : List Source) (es : List ScanEntry)
    → scan_sources ss ≡ entries es
    → scan_logged ss ≡ entries es
unfolding scan_sources scan_logged
scan_logged-entries ss es h = collect_logged-entries _ _ es h

pub filter_twice :
    (p q : Segment → Bool) (segs : List Segment)
    → filter (λ s. p s && q s) segs ≡ filter p (filter q segs)
filter_twice p q [] = refl
filter_twice p q (s ∷ segs) = ground (arith, filter_twice p q segs)

none_of : (x y : Option Row) → or_else x y ≡ none → (x ≡ none) × (y ≡ none)
none_of none y h = (refl, h)
none_of (some r) y h = absurd (cc (h))

some_of_live : (x : Option Row) (r : Row) → live x ≡ some r → x ≡ some r
some_of_live none r h = absurd (cc (h))
some_of_live (some q) r h = elim (Bool-cases q.tombstone) [
  | inl dead ↦ absurd (cc (ap (λ b. if b then none else some q) (sym dead) ∙ h))
  | inr alive ↦ ap (λ b. if b then none else some q) (sym alive) ∙ h
]

module _ (p : Row → Bool) where
  row_of-rejected :
      (j : Str) (es : List ScanEntry) (r : Row)
      → All (λ (e : ScanEntry). p e.value ≡ false) es
      → row_of j es ≡ some r
      → p r ≡ false
  unfolding row_of
  row_of-rejected j [] r h got = absurd (cc (got))
  row_of-rejected j (e ∷ es) r h got = elim (Bool-cases (str_eq e.key j)) [
    | inl same ↦
        subst (λ x. p x ≡ false)
          (cc (ap (λ b. if b then some e.value else row_of j es) (sym same) ∙ got)) h.0
    | inr other ↦
        row_of-rejected j es r h.1
          (ap (λ b. if b then some e.value else row_of j es) (sym other) ∙ got)
  ]

  module _ (keep : Segment → Bool) where
    -- A segment that is left out has no row that the condition selects.
    abbrev pub LeavesOut : List Segment → Type 0
    LeavesOut =
        All (λ (s : Segment). keep s ≡ false → All (λ (e : ScanEntry). p e.value ≡ false) s.rows)

    newest_in-none :
        (j : Str) (segs : List Segment)
        → newest_in rows_of_segment j segs ≡ none
        → newest_in rows_of_segment j (filter keep segs) ≡ none
    newest_in-none j [] h = refl
    newest_in-none j (s ∷ segs) h =
        let (newer, own) = none_of (newest_in rows_of_segment j segs) (row_of j s.rows) h in
        elim (Bool-cases (keep s)) [
          | inl kept ↦ rw (kept, newest_in-none j segs newer, own) refl
          | inr out ↦ rw (out) (newest_in-none j segs newer)
        ]

    pub newest_in-some :
        (j : Str) (segs : List Segment) (r : Row)
        → LeavesOut segs
        → p r ≡ true
        → newest_in rows_of_segment j segs ≡ some r
        → newest_in rows_of_segment j (filter keep segs) ≡ some r
    newest_in-some j [] r h selected got = absurd (cc (got))
    newest_in-some j (s ∷ segs) r h selected got =
        elim (Option-cases (newest_in rows_of_segment j segs)) [
          | inl newer ↦
              let own : row_of j s.rows ≡ some r =
                ap (λ o. or_else o (row_of j s.rows)) (sym newer) ∙ got in
              elim (Bool-cases (keep s)) [
                | inl kept ↦ rw (kept, newest_in-none j segs newer) own
                | inr out ↦ absurd (cc (row_of-rejected j s.rows r (h.0 out) own, selected))
              ]
          | inr (q, newer) ↦
              let same : some q ≡ some r =
                ap (λ o. or_else o (row_of j s.rows)) (sym newer) ∙ got in
              let rest = newest_in-some j segs r h.1 selected (newer ∙ same) in
              elim (Bool-cases (keep s)) [
                | inl kept ↦ rw (kept, rest) refl
                | inr out ↦ rw (out) rest
              ]
        ]

  pub live_under :
      (active immutable below below' : Option Row) (r : Row)
      → (below ≡ some r → below' ≡ some r)
      → live (or_else active (or_else immutable below)) ≡ some r
      → live (or_else active (or_else immutable below')) ≡ some r
  live_under (some a) immutable below below' r f h = h
  live_under none (some i) below below' r f h = h
  live_under none none below below' r f h =
      let found = some_of_live below r h in ap live (f found) ∙ ap live (sym found) ∙ h
