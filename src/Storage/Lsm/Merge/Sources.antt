-- ===== src/Storage/Lsm/Merge/Sources.antt =====
-- Sorted sources, the row that the newest of them has under a key, and the source that the heap puts
-- at its front.
use mathlib.Core.Path.{subst}
use test_db.Prelude.{
  ℕ, zero, suc, ◌≡◌, refl, sym, arith, true, Option, none, some, List, [], ◌∷◌, Str, str_eq,
  str_ltb, if◌then◌else◌, All, AtMost, AtMost-trans, AtMost-refl, AtMost-below, below-AtMost,
  str_compare_swap,
}
use test_db.Storage.Row.{Row, ScanEntry}
use test_db.Storage.Lsm.Merge.{Source, Top, least_top, head_top, heap_top}

-- Every key is greater than `k`, or at least `k`.
abbrev pub Above : Str → List ScanEntry → Type 0
Above k = All (λ (e : ScanEntry). str_ltb k e.key ≡ true)

abbrev pub AtLeast : Str → List ScanEntry → Type 0
AtLeast k = All (λ (e : ScanEntry). AtMost k e.key)

-- Keys rise strictly.
abbrev pub IsAscending : List ScanEntry → Type 0
IsAscending [] = Unit {0}
IsAscending (e ∷ es) = Above e.key es × IsAscending es

abbrev pub AllAscending : List Source → Type 0
AllAscending = All (λ (s : Source). IsAscending s.ahead)

abbrev pub AllAbove : Str → List Source → Type 0
AllAbove k = All (λ (s : Source). Above k s.ahead)

abbrev pub AllAtLeast : Str → List Source → Type 0
AllAtLeast k = All (λ (s : Source). AtLeast k s.ahead)

-- The row under a key.
unfoldable pub row_of : Str → List ScanEntry → Option Row
row_of k [] = none
row_of k (e ∷ es) = if str_eq e.key k then some e.value else row_of k es

abbrev pub or_else : Option Row → Option Row → Option Row
or_else none y = y
or_else (some r) y = some r

-- The row of the last source that has the key: the last is the newest.
unfoldable pub newest : Str → List Source → Option Row
unfolding row_of
newest k [] = none
newest k (s ∷ ss) = or_else (newest k ss) (row_of k s.ahead)

pub Above-AtLeast : (k : Str) (es : List ScanEntry) → Above k es → AtLeast k es
Above-AtLeast k [] h = tt
Above-AtLeast k (e ∷ es) h = (AtMost-below k e.key h.0, Above-AtLeast k es h.1)

pub AtLeast-Above :
    (k l : Str) (es : List ScanEntry) → str_ltb k l ≡ true → AtLeast l es → Above k es
AtLeast-Above k l [] h a = tt
AtLeast-Above k l (e ∷ es) h a = (below-AtMost k l e.key h a.0, AtLeast-Above k l es h a.1)

AtLeast-trans : (k l : Str) (es : List ScanEntry) → AtMost k l → AtLeast l es → AtLeast k es
AtLeast-trans k l [] h a = tt
AtLeast-trans k l (e ∷ es) h a = (AtMost-trans k l e.key h a.0, AtLeast-trans k l es h a.1)

-- A sorted list is at least its first key.
pub ascending-AtLeast :
    (k : Str) (e : ScanEntry) (es : List ScanEntry)
    → AtMost k e.key
    → IsAscending (e ∷ es)
    → AtLeast k (e ∷ es)
ascending-AtLeast k e es h a = (h, AtLeast-trans k e.key es h (Above-AtLeast e.key es a.0))

pub AllAbove-AllAtLeast : (k : Str) (ss : List Source) → AllAbove k ss → AllAtLeast k ss
AllAbove-AllAtLeast k [] h = tt
AllAbove-AllAtLeast k (s ∷ ss) h = (Above-AtLeast k s.ahead h.0, AllAbove-AllAtLeast k ss h.1)

pub AllAtLeast-AllAbove :
    (k l : Str) (ss : List Source) → str_ltb k l ≡ true → AllAtLeast l ss → AllAbove k ss
AllAtLeast-AllAbove k l [] h a = tt
AllAtLeast-AllAbove k l (s ∷ ss) h a =
    (AtLeast-Above k l s.ahead h a.0, AllAtLeast-AllAbove k l ss h a.1)

pub row_of-Above : (k : Str) (es : List ScanEntry) → Above k es → row_of k es ≡ none
unfolding row_of
row_of-Above k [] h = refl
row_of-Above k (e ∷ es) h = ground (arith, h.0, str_compare_swap k e.key, row_of-Above k es h.1)

pub newest-AllAbove : (k : Str) (ss : List Source) → AllAbove k ss → newest k ss ≡ none
unfolding newest
newest-AllAbove k [] h = refl
newest-AllAbove k (s ∷ ss) h = rw (newest-AllAbove k ss h.1, row_of-Above k s.ahead h.0) refl

-- A list that begins with the key.
abbrev pub HeadIs : Str → List ScanEntry → Type 0
HeadIs k [] = ⊥
HeadIs k (e ∷ es) = e.key ≡ k

-- The source at which the least key stands, the newest of those that have it.
abbrev pub IsTop : Str → ℕ → List Source → Type 0
IsTop k d [] = ⊥
IsTop k zero (s ∷ ss) = HeadIs k s.ahead × AllAbove k ss
IsTop k (suc d) (s ∷ ss) = AtLeast k s.ahead × IsTop k d ss

head-AtLeast : (k : Str) (es : List ScanEntry) → HeadIs k es → IsAscending es → AtLeast k es
head-AtLeast k [] h a = tt
head-AtLeast k (e ∷ es) h a =
    ascending-AtLeast k e es (subst (λ x. AtMost x e.key) h (AtMost-refl e.key)) a

pub IsTop-AllAtLeast :
    (k : Str) (d : ℕ) (ss : List Source) → AllAscending ss → IsTop k d ss → AllAtLeast k ss
IsTop-AllAtLeast k d [] a t = tt
IsTop-AllAtLeast k zero (s ∷ ss) a t =
    (head-AtLeast k s.ahead t.0 a.0, AllAbove-AllAtLeast k ss t.1)
IsTop-AllAtLeast k (suc d) (s ∷ ss) a t = (t.0, IsTop-AllAtLeast k d ss a.1 t.1)

abbrev pub AllEmpty : List Source → Type 0
AllEmpty = All (λ (s : Source). s.ahead ≡ [])

pub AllEmpty-AllAbove : (k : Str) (ss : List Source) → AllEmpty ss → AllAbove k ss
AllEmpty-AllAbove k [] h = tt
AllEmpty-AllAbove k (s ∷ ss) h = (subst (Above k) (sym h.0) tt, AllEmpty-AllAbove k ss h.1)

head_top-none :
    (i : ℕ) (es : List ScanEntry) (t : Option Top) → head_top i es t ≡ none → (es ≡ []) × (t ≡ none)
unfolding head_top least_top
head_top-none i [] t h = (refl, h)
head_top-none i (e ∷ es) none h = cc
head_top-none i (e ∷ es) (some u) h = absurd (ground (arith, h))

pub heap_top-none : (i : ℕ) (ss : List Source) → heap_top i ss ≡ none → AllEmpty ss
unfolding heap_top
heap_top-none i [] h = tt
heap_top-none i (s ∷ ss) h =
    let (empty, rest) = head_top-none i s.ahead (heap_top (suc i) ss) h in
    (empty, heap_top-none (suc i) ss rest)
