-- ===== src/Storage/Lsm/Segment/Lookup.antt =====
-- FindRowByKey finds the row of a key in sorted rows, and comes to its end.
use mathlib.Core.Path.{subst}
use test_db.Prelude.{
  ℕ, zero, suc, ◌+◌, ◌-◌, ◌/◌, ◌<◌, ◌≤◌, ◌≡◌, refl, sym, ◌∙◌, arith, true, false, Option, none,
  some, List, [], ◌∷◌, Str, str_eq, str_ltb, str_eq_sym, eq_of_str_eq, str_compare_swap,
  str_ltb_trans, ltb, leb, ◌==◌, length, Bool-cases, inl, inr,
}
use test_db.Storage.Row.{Row, ScanEntry}
use test_db.Storage.Lsm.Merge.Sources.{Above, IsAscending, row_of}
use test_db.Storage.Lsm.Segment.{key_at, find_loop, find_row_by_key}

Above-at :
    (k : Str) (es : List ScanEntry) (i : ℕ)
    → Above k es
    → i < length es
    → str_ltb k (key_at es i) ≡ true
unfolding key_at
Above-at k [] i a lt = absurd (omega arith)
Above-at k (e ∷ es) zero a lt = a.0
Above-at k (e ∷ es) (suc i) a lt = Above-at k es i a.1 (omega arith)

rises_at :
    (es : List ScanEntry) (i j : ℕ)
    → IsAscending es
    → i < j
    → j < length es
    → str_ltb (key_at es i) (key_at es j) ≡ true
unfolding key_at
rises_at [] i j a lt room = absurd (omega arith)
rises_at (e ∷ es) i zero a lt room = absurd (omega arith)
rises_at (e ∷ es) zero (suc j) a lt room = Above-at e.key es j a.0 (omega arith)
rises_at (e ∷ es) (suc i) (suc j) a lt room = rises_at es i j a.1 (omega arith) (omega arith)

-- The key is nowhere in the rows from lo to stop.
abbrev Absent : Str → List ScanEntry → ℕ → ℕ → Type 0
Absent key es lo stop = (i : ℕ) → lo ≤ i → i < stop → str_eq (key_at es i) key ≡ false

-- What the loop finds, or that there is nothing to find.
abbrev Finds : Str → List ScanEntry → ℕ → ℕ → Option ℕ → Type 0
Finds key es lo stop none = Absent key es lo stop
Finds key es lo stop (some i) = (i < stop) × (str_eq (key_at es i) key ≡ true)

apart : (a b : Str) → str_ltb a b ≡ true → str_eq a b ≡ false
apart a b h = ground (arith, h)

below_mid :
    (key : Str) (es : List ScanEntry) (mid i : ℕ)
    → IsAscending es
    → mid < length es
    → str_ltb (key_at es mid) key ≡ true
    → i ≤ mid
    → str_eq (key_at es i) key ≡ false
below_mid key es mid i a room less le = elim (Bool-cases (ltb i mid)) [
  | inl lt ↦ apart (key_at es i) key (
      str_ltb_trans (key_at es i) (key_at es mid) key
        (rises_at es i mid a (ground (arith, lt)) room) less)
  | inr ge ↦
      let i=mid : mid ≡ i = ground (arith, ge, le) in
      subst (λ k. str_eq (key_at es k) key ≡ false) i=mid (apart (key_at es mid) key less)
]

above_mid :
    (key : Str) (es : List ScanEntry) (mid i : ℕ)
    → IsAscending es
    → i < length es
    → str_ltb (key_at es mid) key ≡ false
    → str_eq (key_at es mid) key ≡ false
    → mid ≤ i
    → str_eq (key_at es i) key ≡ false
above_mid key es mid i a room less other le = elim (Bool-cases (ltb mid i)) [
  | inl lt ↦
      let more : str_ltb key (key_at es mid) ≡ true =
        ground (arith, less, other, str_compare_swap (key_at es mid) key) in
      str_eq_sym (key_at es i) key
      ∙ apart key (key_at es i) (
          str_ltb_trans key (key_at es mid) (key_at es i) more
            (rises_at es mid i a (ground (arith, lt)) room))
  | inr ge ↦
      let i=mid : mid ≡ i = ground (arith, ge, le) in
      subst (λ k. str_eq (key_at es k) key ≡ false) i=mid other
]

wider_up :
    (key : Str) (es : List ScanEntry) (lo mid stop : ℕ) (o : Option ℕ)
    → ((i : ℕ) → i ≤ mid → str_eq (key_at es i) key ≡ false)
    → Finds key es (mid + 1) stop o
    → Finds key es lo stop o
wider_up key es lo mid stop (some i) low f = f
wider_up key es lo mid stop none low f = λ i p q. elim (Bool-cases (leb i mid)) [
  | inl le ↦ low i (ground (arith, le))
  | inr gt ↦ f i (ground (arith, gt)) q
]

wider_down :
    (key : Str) (es : List ScanEntry) (lo mid stop : ℕ) (o : Option ℕ)
    → mid ≤ stop
    → ((i : ℕ) → mid ≤ i → i < stop → str_eq (key_at es i) key ≡ false)
    → Finds key es lo mid o
    → Finds key es lo stop o
wider_down key es lo mid stop (some i) le high f = (omega (arith, f.0, le), f.1)
wider_down key es lo mid stop none le high f = λ i p q. elim (Bool-cases (leb mid i)) [
  | inl up ↦ high i (ground (arith, up)) q
  | inr down ↦ f i p (ground (arith, down))
]

-- The loop makes enough rounds.
find_loop-Finds :
    (fuel : ℕ) (key : Str) (es : List ScanEntry) (lo stop : ℕ)
    → IsAscending es
    → stop ≤ length es
    → stop - lo ≤ fuel
    → Finds key es lo stop (find_loop fuel key es lo stop)
unfolding find_loop
find_loop-Finds zero key es lo stop a room enough = λ i p q. absurd (omega arith)
find_loop-Finds (suc fuel) key es lo stop a room enough = elim (Bool-cases (ltb lo stop)) [
  | inr done ↦ rw (done) (λ i p q. absurd (ground (arith, done, p, q)))
  | inl more ↦
      let mid = lo + (stop - 1 - lo) / 2 in
      let inside : mid < stop = ground (arith, more) in
      elim (Bool-cases (str_eq (key_at es mid) key)) [
        | inl here ↦ rw (more, here) (inside, here)
        | inr other ↦ elim (Bool-cases (str_ltb (key_at es mid) key)) [
          | inl less ↦
              rw (more, other, less)
                (wider_up key es lo mid stop (find_loop fuel key es (mid + 1) stop)
                  (λ i p. below_mid key es mid i a (omega (arith, inside, room)) less p)
                  (find_loop-Finds fuel key es (mid + 1) stop a room
                    (omega (arith, enough, inside))))
          | inr greater ↦
              rw (more, other, greater)
                (wider_down key es lo mid stop (find_loop fuel key es lo mid)
                  (omega (arith, inside))
                  (λ i p q. above_mid key es mid i a (omega (arith, q, room)) greater other p)
                  (find_loop-Finds fuel key es lo mid a (omega (arith, inside, room))
                    (omega (arith, enough, inside))))
        ]
      ]
]

-- The row at a found index.
unfoldable pub value_at : List ScanEntry → ℕ → Option Row
value_at [] i = none
value_at (e ∷ es) zero = some e.value
value_at (e ∷ es) (suc i) = value_at es i

abbrev pub found_row : List ScanEntry → Option ℕ → Option Row
found_row es none = none
found_row es (some i) = value_at es i

row_of_missing :
    (key : Str) (es : List ScanEntry) → Absent key es 0 (length es) → row_of key es ≡ none
unfolding row_of key_at
row_of_missing key [] h = refl
row_of_missing key (e ∷ es) h =
    rw (h 0 (omega arith) (omega arith))
      (row_of_missing key es (λ i p q. h (suc i) (omega arith) (omega (arith, q))))

value_at-found :
    (key : Str) (es : List ScanEntry) (i : ℕ)
    → IsAscending es
    → i < length es
    → str_eq (key_at es i) key ≡ true
    → value_at es i ≡ row_of key es
unfolding row_of key_at value_at
value_at-found key [] i a lt h = absurd (omega (arith, lt))
value_at-found key (e ∷ es) zero a lt h = rw (h) refl
value_at-found key (e ∷ es) (suc i) a lt h =
    let below = Above-at e.key es i a.0 (omega (arith, lt)) in
    let other : str_eq e.key key ≡ false =
      apart e.key key
        (subst (λ k. str_ltb e.key k ≡ true) (eq_of_str_eq (key_at es i) key h) below) in
    rw (other) (value_at-found key es i a.1 (omega (arith, lt)) h)

found-row_of :
    (key : Str) (es : List ScanEntry) (o : Option ℕ)
    → IsAscending es
    → Finds key es 0 (length es) o
    → found_row es o ≡ row_of key es
found-row_of key es none a f = sym (row_of_missing key es f)
found-row_of key es (some i) a f = value_at-found key es i a f.0 f.1

-- In a segment whose keys rise strictly, the bisection comes to its end with the index of the row that
-- has the key, or with none if no row has it.
pub find_row_by_key-row_of :
    (key : Str) (es : List ScanEntry)
    → IsAscending es
    → found_row es (find_row_by_key key es) ≡ row_of key es
unfolding find_row_by_key
find_row_by_key-row_of key [] a = sym (row_of_missing key [] (λ i p q. absurd (omega (arith, q))))
find_row_by_key-row_of key (e ∷ es) a =
    let full : (length (e ∷ es) == 0) ≡ false = ground arith in
    rw (full) (
      found-row_of key (e ∷ es) _ a (
        find_loop-Finds (length (e ∷ es)) key (e ∷ es) 0 (length (e ∷ es)) a (omega arith)
          (omega arith)))
