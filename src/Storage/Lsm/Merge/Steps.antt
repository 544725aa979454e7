-- ===== src/Storage/Lsm/Merge/Steps.antt =====
-- The steps of the merge iterator on sources that end without an error.
use mathlib.Core.Path.{subst}
use test_db.Prelude.{
  ℕ, zero, suc, ◌≤◌, ◌≡◌, refl, sym, ap, ◌∙◌, arith, true, false, none, some, List, [], ◌∷◌, Str,
  str_eq, str_ltb, length, AtMost, eq_of_str_eq, str_compare_swap, Bool-cases, Option-cases, inl,
  inr,
}
use test_db.Storage.Row.{ScanEntry}
use test_db.Storage.Lsm.Merge.{
  Source, MergeIterator, heap_top, advance, entry_at, entries_ahead, advance_heap_top,
  set_current_from_heap_top, skip_key, first_error,
}
use test_db.Storage.Lsm.Merge.Sources.{
  AtLeast, AllAscending, AllAbove, AllAtLeast, newest, AllAtLeast-AllAbove, IsTop, IsTop-AllAtLeast,
  HeadIs, AllEmpty, AllEmpty-AllAbove, heap_top-none,
}
use test_db.Storage.Lsm.Merge.Front.{
  heap_top-IsTop, newest-advance, advance-AllAscending, advance-AllAtLeast, entries_ahead-advance,
  NoFailure, advance-NoFailure, ended_with-none,
}

-- An iterator that has started and has met no error.
abbrev pub running : List Source → ScanEntry → MergeIterator
running ss e = record { sources = ss; current = e; err = none; started = true; finished = false }

advance-running :
    (d : ℕ) (ss : List Source) (e : ScanEntry)
    → NoFailure ss
    → advance_heap_top d (running ss e) ≡ running (advance d ss) e
unfolding advance_heap_top first_error
advance-running d ss e n = rw (ended_with-none d (advance d ss) (advance-NoFailure d ss n)) refl

pub set_current-running :
    (k : Str) (d : ℕ) (ss : List Source) (e : ScanEntry)
    → NoFailure ss
    → set_current_from_heap_top (k, d) (running ss e)
      ≡ running (advance d ss) (record { key = k; value = (entry_at d ss).value })
unfolding set_current_from_heap_top
set_current-running k d ss e n =
    advance-running d ss (record { key = k; value = (entry_at d ss).value }) n

-- The front of the heap, by its place.
pub front_place :
    (ss : List Source) (k : Str) (j : ℕ)
    → AllAscending ss
    → heap_top 0 ss ≡ some (k, j)
    → IsTop k j ss
front_place ss k j a h =
    let (d, same, top) = heap_top-IsTop 0 ss k j a h in
    subst (λ i. IsTop k i ss) (sym (omega (arith, same))) top

head-AtMost : (p k : Str) (es : List ScanEntry) → AtLeast p es → HeadIs k es → AtMost p k
head-AtMost p k [] a h = absurd h
head-AtMost p k (e ∷ es) a h = subst (AtMost p) h a.0

pub IsTop-AtMost :
    (p k : Str) (d : ℕ) (ss : List Source) → AllAtLeast p ss → IsTop k d ss → AtMost p k
IsTop-AtMost p k d [] a t = absurd t
IsTop-AtMost p k zero (s ∷ ss) a t = head-AtMost p k s.ahead a.0 t.0
IsTop-AtMost p k (suc d) (s ∷ ss) a t = IsTop-AtMost p k d ss a.1 t.1

no_entry : (es : List ScanEntry) → length es ≡ 0 → es ≡ []
no_entry [] h = refl
no_entry (e ∷ es) h = absurd (omega (arith, h))

pub no_entries : (ss : List Source) → entries_ahead ss ≡ 0 → AllEmpty ss
unfolding entries_ahead
no_entries [] h = tt
no_entries (s ∷ ss) h = (no_entry s.ahead (omega (arith, h)), no_entries ss (omega (arith, h)))

pub between : (p k : Str) → AtMost p k → str_eq k p ≡ false → str_ltb p k ≡ true
between p k h other = ground (arith, h, other, str_compare_swap p k)

-- What is left once the entries of a key are skipped.
pub record Skipped (fuel : ℕ) (p : Str) (ss : List Source) (e : ScanEntry) : Type 0 where
  pub rest : List Source
  pub reached : skip_key fuel p (running ss e) ≡ running rest e
  pub ascending : AllAscending rest
  pub above : AllAbove p rest
  pub clean : NoFailure rest
  pub others : (j : Str) → str_eq p j ≡ false → newest j rest ≡ newest j ss
  pub fewer : entries_ahead rest ≤ entries_ahead ss

stays :
    (fuel : ℕ) (p : Str) (ss : List Source) (e : ScanEntry)
    → skip_key fuel p (running ss e) ≡ running ss e
    → AllAscending ss
    → AllAbove p ss
    → NoFailure ss
    → Skipped fuel p ss e
stays fuel p ss e h a b n = record {
  rest = ss;
  reached = h;
  ascending = a;
  above = b;
  clean = n;
  others = λ j other. refl;
  fewer = omega arith;
}

pub skip_key-Skipped :
    (fuel : ℕ) (p : Str) (ss : List Source) (e : ScanEntry)
    → AllAscending ss
    → AllAtLeast p ss
    → NoFailure ss
    → entries_ahead ss ≤ fuel
    → Skipped fuel p ss e
unfolding skip_key
skip_key-Skipped zero p ss e a l n h =
    stays zero p ss e refl a (AllEmpty-AllAbove p ss (no_entries ss (omega (arith, h)))) n
skip_key-Skipped (suc fuel) p ss e a l n h = elim (Option-cases (heap_top 0 ss)) [
  | inl empty ↦
      stays (suc fuel) p ss e (rw (empty) refl) a
        (AllEmpty-AllAbove p ss (heap_top-none 0 ss empty)) n
  | inr ((k, d), front) ↦
      let top = front_place ss k d a front in
      elim (Bool-cases (str_eq k p)) [
        | inl same ↦
            let r =
              skip_key-Skipped fuel p (advance d ss) e (advance-AllAscending d ss a)
                (advance-AllAtLeast p d ss l) (advance-NoFailure d ss n)
                (omega (arith, entries_ahead-advance k d ss top, h)) in
            record {
              rest = r.rest;
              reached =
                  rw (front)
                    (rw (same) (ap (skip_key fuel p) (advance-running d ss e n) ∙ r.reached));
              ascending = r.ascending;
              above = r.above;
              clean = r.clean;
              others = λ j other.
                  r.others j other
                  ∙ newest-advance k j d ss top
                      (ap (λ x. str_eq x j) (eq_of_str_eq k p same) ∙ other);
              fewer = omega (arith, r.fewer, entries_ahead-advance k d ss top);
            }
        | inr other ↦
            stays (suc fuel) p ss e (rw (front) (rw (other) refl)) a
              (AllAtLeast-AllAbove p k ss (between p k (IsTop-AtMost p k d ss l top) other)
                (IsTop-AllAtLeast k d ss a top))
              n
      ]
]
