-- ===== src/Storage/Lsm/SkipLists/Inserted.antt =====
-- Inserting a row into rows in the order of their keys.
use mathlib.Core.Path.{subst}
use test_db.Prelude.{
  ◌≡◌, refl, ap, arith, true, false, some, List, [], ◌∷◌, Str, str_eq, str_ltb, str_eq_left,
  str_eq_sym, eq_of_str_eq, str_ltb_trans, str_compare_swap, if◌then◌else◌, Bool-cases, inl, inr,
}
use test_db.Storage.Row.{Row, ScanEntry}
use test_db.Storage.Lsm.Merge.Sources.{Above, IsAscending, row_of}

abbrev entry : Str → Row → ScanEntry
entry k r = record { key = k; value = r }

unfoldable pub insert_row : Str → Row → List ScanEntry → List ScanEntry
insert_row k r [] = entry k r ∷ []
insert_row k r (e ∷ es) =
    let rest = insert_row k r es in
    if str_eq e.key k
    then entry k r ∷ es
    else if str_ltb k e.key
    then entry k r ∷ e ∷ es
    else e ∷ rest

pub Above-trans : (j k : Str) (es : List ScanEntry) → str_ltb j k ≡ true → Above k es → Above j es
Above-trans j k [] h b = tt
Above-trans j k (e ∷ es) h b = (str_ltb_trans j k e.key h b.0, Above-trans j k es h b.1)

Above-insert_row :
    (j k : Str) (r : Row) (es : List ScanEntry)
    → str_ltb j k ≡ true
    → Above j es
    → Above j (insert_row k r es)
unfolding insert_row
Above-insert_row j k r [] h b = (h, tt)
Above-insert_row j k r (e ∷ es) h b = elim (Bool-cases (str_eq e.key k)) [
  | inl same ↦ rw (same) (h, b.1)
  | inr other ↦ rw (other) (elim (Bool-cases (str_ltb k e.key)) [
    | inl below ↦ rw (below) (h, (b.0, b.1))
    | inr above ↦ rw (above) (b.0, Above-insert_row j k r es h b.1)
  ])
]

pub rises : (a b : Str) → str_eq a b ≡ false → str_ltb b a ≡ false → str_ltb a b ≡ true
rises a b h k = ground (arith, h, k, str_compare_swap a b)

pub insert_row-IsAscending :
    (k : Str) (r : Row) (es : List ScanEntry) → IsAscending es → IsAscending (insert_row k r es)
unfolding insert_row
insert_row-IsAscending k r [] a = (tt, tt)
insert_row-IsAscending k r (e ∷ es) a = elim (Bool-cases (str_eq e.key k)) [
  | inl same ↦ rw (same) (subst (λ x. Above x es) (eq_of_str_eq e.key k same) a.0, a.1)
  | inr other ↦ rw (other) (elim (Bool-cases (str_ltb k e.key)) [
    | inl below ↦ rw (below) ((below, Above-trans k e.key es below a.0), a)
    | inr above ↦ rw (above) (
      Above-insert_row e.key k r es (rises e.key k other above) a.0,
      insert_row-IsAscending k r es a.1,
    )
  ])
]

str_eq_right : (a b c : Str) → str_eq a b ≡ true → str_eq c a ≡ str_eq c b
str_eq_right a b c h = ap (str_eq c) (eq_of_str_eq a b h)

pub row_of-insert_row :
    (k j : Str) (r : Row) (es : List ScanEntry)
    → row_of j (insert_row k r es) ≡ (if str_eq k j then some r else row_of j es)
unfolding insert_row row_of
row_of-insert_row k j r [] = refl
row_of-insert_row k j r (e ∷ es) = ground (
  arith,
  str_eq_left e.key k j,
  str_eq_left k e.key j,
  str_eq_sym k e.key,
  str_eq_right k j e.key,
  row_of-insert_row k j r es,
)
