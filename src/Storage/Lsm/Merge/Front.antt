-- ===== src/Storage/Lsm/Merge/Front.antt =====
-- The front of the heap, and what moving its source on leaves of the others.
use mathlib.Core.Path.{subst}
use test_db.Prelude.{
  ℕ, zero, suc, ◌+◌, ◌<◌, ◌≡◌, refl, sym, ap, ◌∙◌, arith, true, false, none, some, List, [], ◌∷◌,
  Str, str_eq, str_ltb, if◌then◌else◌, length, All, AtMost, str_eq_refl, str_compare_swap,
  Bool-cases, Option-cases, ◌⊎◌, inl, inr,
}
use test_db.Storage.Row.{ScanEntry}
use test_db.Storage.Lsm.Merge.{
  Source, heap_less, least_top, head_top, heap_top, advance, entry_at, entries_ahead, head_of,
  tail_of, ended_with, first_failure,
}
use test_db.Storage.Lsm.Merge.Sources.{
  AtLeast, IsAscending, AllAscending, AllAbove, AllAtLeast, row_of, or_else, newest,
  AllAtLeast-AllAbove, newest-AllAbove, IsTop, IsTop-AllAtLeast, AllEmpty-AllAbove, heap_top-none,
  ascending-AtLeast, HeadIs,
}

-- The front of the heap is at the `d`-th of the sources.
abbrev Found : Str → ℕ → ℕ → List Source → Type 0
Found k i j ss = (d : ℕ) × (j ≡ i + d) × IsTop k d ss

-- The same where the entries of the first source stand apart.
abbrev FoundWith : Str → ℕ → ℕ → List ScanEntry → List Source → Type 0
FoundWith k i j es ss =
    ((j ≡ i) × HeadIs k es × AllAbove k ss) ⊎ (AtLeast k es × Found k (suc i) j ss)

less-AtMost : (u v : Str) (l i : ℕ) → heap_less (u, l) (v, i) ≡ true → AtMost u v
unfolding heap_less
less-AtMost u v l i h = ground (arith, h, str_compare_swap u v)

not_less : (u v : Str) (l i : ℕ) → i < l → heap_less (u, l) (v, i) ≡ false → str_ltb v u ≡ true
unfolding heap_less
not_less u v l i lt h = ground (arith, h, str_compare_swap u v)

-- The lesser of an entry's key and the front of the later sources.
lesser :
    (i : ℕ) (e : ScanEntry) (es : List ScanEntry) (ss : List Source) (u : Str) (l : ℕ) (k : Str)
    (j : ℕ)
    → IsAscending (e ∷ es)
    → AllAscending ss
    → Found u (suc i) l ss
    → least_top (e.key, i) (some (u, l)) ≡ some (k, j)
    → FoundWith k i j (e ∷ es) ss
unfolding least_top
lesser i e es ss u l k j a b (d, place, top) h = elim (Bool-cases (heap_less (u, l) (e.key, i))) [
  | inl less ↦
      let same : (u ≡ k) × (l ≡ j) = ground (arith, h, less) in
      inr (
        subst (λ x. AtLeast x (e ∷ es)) same.0
            (ascending-AtLeast u e es (less-AtMost u e.key l i less) a),
        (d, omega (arith, place, same.1), subst (λ x. IsTop x d ss) same.0 top),
      )
  | inr greater ↦
      let same : (e.key ≡ k) × (i ≡ j) = ground (arith, h, greater) in
      let above = not_less u e.key l i (omega (arith, place)) greater in
      inl (
        sym same.1,
        same.0,
        subst (λ x. AllAbove x ss) same.0
            (AllAtLeast-AllAbove e.key u ss above (IsTop-AllAtLeast u d ss b top)),
      )
]

found_with :
    (i : ℕ) (es : List ScanEntry) (ss : List Source) (k : Str) (j : ℕ)
    → IsAscending es
    → AllAscending ss
    → ((u : Str) (l : ℕ) → heap_top (suc i) ss ≡ some (u, l) → Found u (suc i) l ss)
    → head_top i es (heap_top (suc i) ss) ≡ some (k, j)
    → FoundWith k i j es ss
unfolding head_top least_top
found_with i [] ss k j a b ih h = inr (tt, ih k j h)
found_with i (e ∷ es) ss k j a b ih h = elim (Option-cases (heap_top (suc i) ss)) [
  | inl empty ↦
      let same : (e.key ≡ k) × (i ≡ j) =
        ground (arith, ap (λ t. least_top (e.key, i) t) empty, h) in
      inl (sym same.1, same.0, AllEmpty-AllAbove k ss (heap_top-none (suc i) ss empty))
  | inr ((u, l), front) ↦
      lesser i e es ss u l k j a b (ih u l front) (ap (least_top (e.key, i)) (sym front) ∙ h)
]

Found-from :
    (k : Str) (i j : ℕ) (s : Source) (ss : List Source)
    → FoundWith k i j s.ahead ss
    → Found k i j (s ∷ ss)
Found-from k i j s ss (inl (e, head, above)) = (0, omega arith, (head, above))
Found-from k i j s ss (inr (low, (d, e, top))) = (suc d, omega arith, (low, top))

pub heap_top-IsTop :
    (i : ℕ) (ss : List Source) (k : Str) (j : ℕ)
    → AllAscending ss
    → heap_top i ss ≡ some (k, j)
    → Found k i j ss
unfolding heap_top
heap_top-IsTop i [] k j a h = absurd (cc (h))
heap_top-IsTop i (s ∷ ss) k j a h =
    Found-from k i j s ss
      (found_with i s.ahead ss k j a.0 a.1 (λ u l. heap_top-IsTop (suc i) ss u l a.1) h)

row_of-head : (k : Str) (es : List ScanEntry) → HeadIs k es → row_of k es ≡ some (head_of es).value
unfolding row_of
row_of-head k [] h = absurd h
row_of-head k (e ∷ es) h =
    ap (λ b. if b then some e.value else row_of k es) (ap (λ x. str_eq x k) h ∙ str_eq_refl k)

-- The row at the front is the newest under its key.
pub newest-front :
    (k : Str) (d : ℕ) (ss : List Source) → IsTop k d ss → newest k ss ≡ some (entry_at d ss).value
unfolding newest entry_at
newest-front k d [] t = absurd t
newest-front k zero (s ∷ ss) t = rw (newest-AllAbove k ss t.1) (row_of-head k s.ahead t.0)
newest-front k (suc d) (s ∷ ss) t = rw (newest-front k d ss t.1) refl

row_of-tail :
    (k j : Str) (es : List ScanEntry)
    → HeadIs k es
    → str_eq k j ≡ false
    → row_of j (tail_of es) ≡ row_of j es
unfolding row_of
row_of-tail k j [] h other = refl
row_of-tail k j (e ∷ es) h other =
    sym (ap (λ b. if b then some e.value else row_of j es) (ap (λ x. str_eq x j) h ∙ other))

-- Moving the front on leaves the rows under the other keys.
pub newest-advance :
    (k j : Str) (d : ℕ) (ss : List Source)
    → IsTop k d ss
    → str_eq k j ≡ false
    → newest j (advance d ss) ≡ newest j ss
unfolding newest advance
newest-advance k j d [] t other = refl
newest-advance k j zero (s ∷ ss) t other =
    ap (or_else (newest j ss)) (row_of-tail k j s.ahead t.0 other)
newest-advance k j (suc d) (s ∷ ss) t other =
    ap (λ o. or_else o (row_of j s.ahead)) (newest-advance k j d ss t.1 other)

tail-IsAscending : (es : List ScanEntry) → IsAscending es → IsAscending (tail_of es)
tail-IsAscending [] a = tt
tail-IsAscending (e ∷ es) a = a.1

pub advance-AllAscending :
    (d : ℕ) (ss : List Source) → AllAscending ss → AllAscending (advance d ss)
unfolding advance
advance-AllAscending d [] a = tt
advance-AllAscending zero (s ∷ ss) a = (tail-IsAscending s.ahead a.0, a.1)
advance-AllAscending (suc d) (s ∷ ss) a = (a.0, advance-AllAscending d ss a.1)

tail-AtLeast : (k : Str) (es : List ScanEntry) → AtLeast k es → AtLeast k (tail_of es)
tail-AtLeast k [] a = tt
tail-AtLeast k (e ∷ es) a = a.1

pub advance-AllAtLeast :
    (k : Str) (d : ℕ) (ss : List Source) → AllAtLeast k ss → AllAtLeast k (advance d ss)
unfolding advance
advance-AllAtLeast k d [] a = tt
advance-AllAtLeast k zero (s ∷ ss) a = (tail-AtLeast k s.ahead a.0, a.1)
advance-AllAtLeast k (suc d) (s ∷ ss) a = (a.0, advance-AllAtLeast k d ss a.1)

length-tail : (k : Str) (es : List ScanEntry) → HeadIs k es → length (tail_of es) + 1 ≡ length es
length-tail k [] h = absurd h
length-tail k (e ∷ es) h = omega arith

pub entries_ahead-advance :
    (k : Str) (d : ℕ) (ss : List Source)
    → IsTop k d ss
    → entries_ahead (advance d ss) + 1 ≡ entries_ahead ss
unfolding entries_ahead advance
entries_ahead-advance k d [] t = absurd t
entries_ahead-advance k zero (s ∷ ss) t = omega (arith, length-tail k s.ahead t.0)
entries_ahead-advance k (suc d) (s ∷ ss) t = omega (arith, entries_ahead-advance k d ss t.1)

-- No source ends with an error.
abbrev pub NoFailure : List Source → Type 0
NoFailure = All (λ (s : Source). s.failure ≡ none)

pub advance-NoFailure : (d : ℕ) (ss : List Source) → NoFailure ss → NoFailure (advance d ss)
unfolding advance
advance-NoFailure d [] n = tt
advance-NoFailure zero (s ∷ ss) n = (n.0, n.1)
advance-NoFailure (suc d) (s ∷ ss) n = (n.0, advance-NoFailure d ss n.1)

pub ended_with-none : (d : ℕ) (ss : List Source) → NoFailure ss → ended_with d ss ≡ none
unfolding ended_with
ended_with-none d [] n = refl
ended_with-none zero (s ∷ ss) n = ground (arith, n.0)
ended_with-none (suc d) (s ∷ ss) n = ended_with-none d ss n.1

pub first_failure-none : (ss : List Source) → NoFailure ss → first_failure ss ≡ none
unfolding first_failure
first_failure-none [] n = refl
first_failure-none (s ∷ ss) n = ground (arith, n.0, first_failure-none ss n.1)
