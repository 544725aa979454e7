-- ===== src/Storage/Lsm/Segment/Ranges.antt =====
-- The iterator over a segment comes to the rows whose keys lie in the range, and to no other.
use test_db.Prelude.{
  ℕ, zero, suc, ◌<◌, ◌≤◌, ◌≡◌, refl, sym, ap, ◌∙◌, arith, Bool, true, not, ◌&&◌, none, List, [],
  ◌∷◌, Str, str_ltb, str_leb, length, take, drop, filter, All, str_ltb_trans, str_lt_trans,
  eq_of_str_compare, holds_at, position, IsUpward, search_elems-position, Bool-cases, inl, inr,
}
use test_db.Storage.Row.{ScanEntry}
use test_db.Storage.Lsm.Merge.Sources.{Above, IsAscending}
use test_db.Storage.Lsm.Segment.{
  Segment, from_key, past_key, find_row_by_key_ge, find_row_by_key_le, compute_range,
  segment_iterator,
}

-- start <= key <= end
abbrev pub in_range : Str → Str → ScanEntry → Bool
in_range start end e = not (past_key end e) && from_key start e

leb_lt : (a b c : Str) → str_leb a b ≡ true → str_ltb b c ≡ true → str_leb a c ≡ true
leb_lt a b c h k = ground (arith, h, k, str_lt_trans a b c, eq_of_str_compare a b)

pub from_later :
    (key : Str) (e : ScanEntry) (es : List ScanEntry)
    → from_key key e ≡ true
    → Above e.key es
    → All (λ (x : ScanEntry). from_key key x ≡ true) es
from_later key e [] h b = tt
from_later key e (x ∷ xs) h b = (leb_lt key e.key x.key h b.0, from_later key e xs h b.1)

pub past_later :
    (key : Str) (e : ScanEntry) (es : List ScanEntry)
    → past_key key e ≡ true
    → Above e.key es
    → All (λ (x : ScanEntry). past_key key x ≡ true) es
past_later key e [] h b = tt
past_later key e (x ∷ xs) h b = (str_ltb_trans key e.key x.key h b.0, past_later key e xs h b.1)

All-holds_at :
    (p : ScanEntry → Bool) (es : List ScanEntry)
    → All (λ (x : ScanEntry). p x ≡ true) es
    → (i : ℕ) → i < length es
    → holds_at p es i ≡ true
All-holds_at p [] h i lt = absurd (omega arith)
All-holds_at p (e ∷ es) h zero lt = h.0
All-holds_at p (e ∷ es) h (suc i) lt = All-holds_at p es h.1 i (omega arith)

from_key-IsUpward : (key : Str) (es : List ScanEntry) → IsAscending es → IsUpward (from_key key) es
from_key-IsUpward key [] a = tt
from_key-IsUpward key (e ∷ es) a =
    (λ h. All-holds_at (from_key key) es (from_later key e es h a.0), from_key-IsUpward key es a.1)

past_key-IsUpward : (key : Str) (es : List ScanEntry) → IsAscending es → IsUpward (past_key key) es
past_key-IsUpward key [] a = tt
past_key-IsUpward key (e ∷ es) a =
    (λ h. All-holds_at (past_key key) es (past_later key e es h a.0), past_key-IsUpward key es a.1)

-- Past the end nothing is in the range.
pub filter-past :
    (start end : Str) (es : List ScanEntry)
    → All (λ (x : ScanEntry). past_key end x ≡ true) es
    → filter (in_range start end) es ≡ []
filter-past start end [] h = refl
filter-past start end (e ∷ es) h = ground (arith, h.0, filter-past start end es h.1)

position-from :
    (start : Str) (es : List ScanEntry)
    → All (λ (x : ScanEntry). from_key start x ≡ true) es
    → position (from_key start) es ≡ 0
unfolding position
position-from start [] h = refl
position-from start (e ∷ es) h = rw (h.0) refl

drop-nil : (n : ℕ) → drop {A = ScanEntry} n [] ≡ []
drop-nil zero = refl
drop-nil (suc n) = refl

cut :
    (start end : Str) (es : List ScanEntry)
    → IsAscending es
    → drop (position (from_key start) es) (take (position (past_key end) es) es)
      ≡ filter (in_range start end) es
unfolding position
cut start end [] a = refl
cut start end (e ∷ es) a = elim (Bool-cases (past_key end e)) [
  | inl past ↦ rw (past) (
      drop-nil (position (from_key start) (e ∷ es))
      ∙ sym (filter-past start end es (past_later end e es past a.0)))
  | inr inside ↦ elim (Bool-cases (from_key start e)) [
    | inl from ↦
        rw (inside, from)
          (ap (λ l. e ∷ l)
            (ap (λ n. drop n (take (position (past_key end) es) es))
                (sym (position-from start es (from_later start e es from a.0)))
              ∙ cut start end es a.1))
    | inr before ↦ rw (inside, before) (cut start end es a.1)
  ]
]

length-take : (n : ℕ) (es : List ScanEntry) → length (take n es) ≤ n
length-take zero es = omega arith
length-take (suc n) [] = omega arith
length-take (suc n) (e ∷ es) = omega (arith, length-take n es)

drop-short : (n : ℕ) (es : List ScanEntry) → length es ≤ n → drop n es ≡ []
drop-short zero [] h = refl
drop-short zero (e ∷ es) h = absurd (omega arith)
drop-short (suc n) [] h = refl
drop-short (suc n) (e ∷ es) h = drop-short n es (omega arith)

length-take_all : (n : ℕ) (es : List ScanEntry) → length (take n es) ≤ length es
length-take_all zero es = omega arith
length-take_all (suc n) [] = omega arith
length-take_all (suc n) (e ∷ es) = omega (arith, length-take_all n es)

-- Nothing stands between two bounds where the first is past the end, or not before the second.
past_end : (i j : ℕ) (es : List ScanEntry) → length es ≤ i → drop i (take j es) ≡ []
past_end i j es h = drop-short i (take j es) (omega (arith, length-take_all j es))

crossed : (i j : ℕ) (es : List ScanEntry) → j ≤ i → drop i (take j es) ≡ []
crossed i j es h = drop-short i (take j es) (omega (arith, length-take j es))

-- The iterator over a segment whose keys rise strictly and whose columns decode stands before the
-- rows whose keys lie in the range, and before no other.
pub segment_iterator-filter :
    (start end : Str) (seg : Segment)
    → IsAscending seg.rows
    → seg.failure ≡ none
    → segment_iterator start end seg
      ≡ record { ahead = filter (in_range start end) seg.rows; failure = none }
unfolding segment_iterator compute_range find_row_by_key_ge find_row_by_key_le
segment_iterator-filter start end seg a clean =
    let i = position (from_key start) seg.rows in
    let j = position (past_key end) seg.rows in
    let first =
      search_elems-position (from_key start) seg.rows (from_key-IsUpward start seg.rows a) in
    let last = search_elems-position (past_key end) seg.rows (past_key-IsUpward end seg.rows a) in
    ground (
      arith,
      clean,
      first,
      last,
      past_end i j seg.rows,
      crossed i j seg.rows,
      cut start end seg.rows a,
    )
