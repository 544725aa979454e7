-- ===== src/Index/Primary/InsertionSort.antt =====
-- A sort that meets what is known of sort.Slice.
use mathlib.Core.List.{Perm}
use mathlib.Core.List.Perm
use test_db.Prelude.{
  ◌≡◌, true, List, [], ◌∷◌, arith, Str, str_leb, str_lt_trans, eq_of_str_compare, str_compare_swap,
  if◌then◌else◌, Bool-cases, inl, inr,
}
use test_db.Index.Primary.{SegmentMeta, SliceSort, IsAscending}
use test_db.Index.Primary.Sorted.{AllFrom}

abbrev insert : SegmentMeta → List SegmentMeta → List SegmentMeta
insert x [] = x ∷ []
insert x (y ∷ ys) =
    let rest = insert x ys in if str_leb x.min_key y.min_key then x ∷ y ∷ ys else y ∷ rest

abbrev insertion_sort : List SegmentMeta → List SegmentMeta
insertion_sort [] = []
insertion_sort (x ∷ xs) = insert x (insertion_sort xs)

insert-perm : (x : SegmentMeta) (ys : List SegmentMeta) → Perm (insert x ys) (x ∷ ys)
insert-perm x [] = Perm.refl _
insert-perm x (y ∷ ys) = elim (Bool-cases (str_leb x.min_key y.min_key)) [
  | inl h ↦ rw h (Perm.refl _)
  | inr h ↦ rw h (Perm.trans (Perm.cons y (insert-perm x ys)) (Perm.swap x y ys))
]

pub insertion_sort-perm : (xs : List SegmentMeta) → Perm (insertion_sort xs) xs
insertion_sort-perm [] = Perm.refl _
insertion_sort-perm (x ∷ xs) =
    Perm.trans (insert-perm x (insertion_sort xs)) (Perm.cons x (insertion_sort-perm xs))

str_le_trans : (a b c : Str) → str_leb a b ≡ true → str_leb b c ≡ true → str_leb a c ≡ true
str_le_trans a b c h k =
    ground (arith, str_lt_trans a b c, eq_of_str_compare a b, eq_of_str_compare b c)

AllFrom-trans :
    (j k : Str) (xs : List SegmentMeta) → str_leb j k ≡ true → AllFrom k xs → AllFrom j xs
AllFrom-trans j k [] h a = tt
AllFrom-trans j k (x ∷ xs) h a = (str_le_trans j k x.min_key h a.0, AllFrom-trans j k xs h a.1)

insert-AllFrom :
    (k : Str) (x : SegmentMeta) (ys : List SegmentMeta)
    → str_leb k x.min_key ≡ true
    → AllFrom k ys
    → AllFrom k (insert x ys)
insert-AllFrom k x [] h a = (h, tt)
insert-AllFrom k x (y ∷ ys) h a = ground (arith, insert-AllFrom k x ys h a.1)

insert-IsAscending :
    (x : SegmentMeta) (ys : List SegmentMeta) → IsAscending ys → IsAscending (insert x ys)
insert-IsAscending x [] s = (tt, tt)
insert-IsAscending x (y ∷ ys) s = ground (
  arith,
  str_compare_swap x.min_key y.min_key,
  AllFrom-trans x.min_key y.min_key ys,
  insert-AllFrom y.min_key x ys,
  insert-IsAscending x ys s.1,
)

pub insertion_sort-IsAscending : (xs : List SegmentMeta) → IsAscending (insertion_sort xs)
insertion_sort-IsAscending [] = tt
insertion_sort-IsAscending (x ∷ xs) = insert-IsAscending x _ (insertion_sort-IsAscending xs)

abbrev pub sorter : SliceSort
sorter = record {
  sort = insertion_sort;
  sort-perm = insertion_sort-perm;
  sort-IsAscending = insertion_sort-IsAscending;
}
