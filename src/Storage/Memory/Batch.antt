-- ===== src/Storage/Memory/Batch.antt =====
-- Sorting a slice with a batch appended and dropping duplicates, against one upsert for each row.
use Prim.Native.Nat.{Ordering}
use test_db.Prelude.{
  ◌≡◌, refl, ap, sym, ◌∙◌, List, [], ◌∷◌, ◌++◌, arith, str_compare, str_eq, eq_of_str_compare,
  str_compare_swap, str_lt_trans, if◌then◌else◌,
}
use mathlib.Core.List.{append-nil, append_assoc}
use test_db.Storage.Memory.{
  RowEntry, sort_and_dedup_locked, stable_sort, stable_insert, dedup, dedup_loop,
}
use test_db.Storage.Memory.Shape.{Below, IsSorted, place}
use test_db.Storage.Memory.Table.{place-IsSorted}

-- An entry put in its place, unless its key is there already.
place_absent : RowEntry → List RowEntry → List RowEntry
place_absent e [] = e ∷ []
place_absent e (x ∷ xs) =
    let rest = place_absent e xs in
    elim (str_compare e.key x.key) [
      | Ordering.lt ↦ e ∷ x ∷ xs
      | Ordering.eq ↦ x ∷ xs
      | Ordering.gt ↦ x ∷ rest
    ]

abbrev pub place_entry : RowEntry → List RowEntry → List RowEntry
place_entry e xs = place e.key e.row xs

-- One upsert for each entry, the first one first.
unfoldable pub place_all : List RowEntry → List RowEntry → List RowEntry
place_all [] xs = xs
place_all (e ∷ es) xs = place_all es (place_entry e xs)

-- The result of a loop begins with the key of its first entry.
dedup_loop_head :
    (x z : RowEntry) (zs : List RowEntry)
    → str_compare x.key z.key ≡ Ordering.lt
    → place_absent x (dedup_loop z zs) ≡ x ∷ dedup_loop z zs
unfolding place_absent dedup_loop
dedup_loop_head x z [] h = ground arith
dedup_loop_head x z (w ∷ ws) h =
    ground (arith, eq_of_str_compare w.key z.key, dedup_loop_head x w ws)

dedup_loop_same :
    (x z : RowEntry) (zs : List RowEntry)
    → str_compare x.key z.key ≡ Ordering.eq
    → place_absent x (dedup_loop z zs) ≡ dedup_loop z zs
unfolding place_absent dedup_loop
dedup_loop_same x z [] h = ground arith
dedup_loop_same x z (w ∷ ws) h =
    ground (arith, eq_of_str_compare w.key z.key, dedup_loop_same x w ws)

dedup_loop-insert :
    (x y : RowEntry) (ys : List RowEntry)
    → str_compare y.key x.key ≡ Ordering.lt
    → dedup_loop y (stable_insert x ys) ≡ place_absent x (dedup_loop y ys)
unfolding place_absent dedup_loop stable_insert
dedup_loop-insert x y [] h = ground (arith, str_compare_swap x.key y.key)
dedup_loop-insert x y (z ∷ zs) h = ground (
  arith,
  str_compare_swap x.key y.key,
  str_compare_swap x.key z.key,
  eq_of_str_compare z.key y.key,
  dedup_loop-insert x z zs,
  dedup_loop_head x z zs,
  dedup_loop_same x z zs,
)

dedup_loop-cons :
    (x y : RowEntry) (ys : List RowEntry)
    → dedup_loop x (y ∷ ys) ≡ (if str_eq y.key x.key then dedup_loop y ys else x ∷ dedup_loop y ys)
unfolding dedup_loop
dedup_loop-cons x y ys = refl

dedup-insert :
    (x : RowEntry) (ys : List RowEntry) → dedup (stable_insert x ys) ≡ place_absent x (dedup ys)
unfolding dedup stable_insert
dedup-insert x [] = unfold place_absent dedup_loop in refl
dedup-insert x (y ∷ ys) = ground (
  arith,
  str_compare_swap x.key y.key,
  dedup_loop-insert x y ys,
  dedup_loop_head x y ys,
  dedup_loop_same x y ys,
  dedup_loop-cons x y ys,
)

sort_and_dedup-cons :
    (x : RowEntry) (xs : List RowEntry)
    → sort_and_dedup_locked (x ∷ xs) ≡ place_absent x (sort_and_dedup_locked xs)
unfolding sort_and_dedup_locked
sort_and_dedup-cons x xs = dedup-insert x (stable_sort xs)

place_absent-place :
    (x e : RowEntry) (ys : List RowEntry)
    → place_absent x (place_entry e ys) ≡ place_entry e (place_absent x ys)
unfolding place_absent place
place_absent-place x e [] =
    ground (arith, str_compare_swap x.key e.key, eq_of_str_compare x.key e.key)
place_absent-place x e (y ∷ ys) = ground (
  arith,
  str_compare_swap x.key e.key,
  str_compare_swap x.key y.key,
  str_compare_swap e.key y.key,
  eq_of_str_compare x.key e.key,
  eq_of_str_compare x.key y.key,
  eq_of_str_compare e.key y.key,
  str_lt_trans x.key y.key e.key,
  str_lt_trans e.key y.key x.key,
  place_absent-place x e ys,
)

sort_and_dedup-snoc :
    (xs : List RowEntry) (e : RowEntry)
    → sort_and_dedup_locked (xs ++ e ∷ []) ≡ place_entry e (sort_and_dedup_locked xs)
sort_and_dedup-snoc [] e = unfold sort_and_dedup_locked place in refl
sort_and_dedup-snoc (x ∷ xs) e =
    sort_and_dedup-cons x (xs ++ e ∷ [])
    ∙ ap (place_absent x) (sort_and_dedup-snoc xs e)
    ∙ place_absent-place x e (sort_and_dedup_locked xs)
    ∙ ap (place_entry e) (sym (sort_and_dedup-cons x xs))

place_absent-Below :
    (x : RowEntry) (xs : List RowEntry) → Below x.key xs → place_absent x xs ≡ x ∷ xs
unfolding place_absent
place_absent-Below x [] b = refl
place_absent-Below x (y ∷ ys) b = ground (arith, b.0)

sort_and_dedup_sorted : (xs : List RowEntry) → IsSorted xs → sort_and_dedup_locked xs ≡ xs
sort_and_dedup_sorted [] s = unfold sort_and_dedup_locked in refl
sort_and_dedup_sorted (x ∷ xs) s =
    sort_and_dedup-cons x xs
    ∙ ap (place_absent x) (sort_and_dedup_sorted xs s.1)
    ∙ place_absent-Below x xs s.0

sort_and_dedup-place_all :
    (xs es : List RowEntry)
    → sort_and_dedup_locked (xs ++ es) ≡ place_all es (sort_and_dedup_locked xs)
unfolding place_all
sort_and_dedup-place_all xs [] = ap sort_and_dedup_locked (append-nil xs)
sort_and_dedup-place_all xs (e ∷ es) =
    ap sort_and_dedup_locked (sym (append_assoc xs (e ∷ []) es))
    ∙ sort_and_dedup-place_all (xs ++ e ∷ []) es
    ∙ ap (place_all es) (sort_and_dedup-snoc xs e)

-- On a sorted slice, one sort of everything is one upsert for each entry.
pub sort_and_dedup_all :
    (xs es : List RowEntry) → IsSorted xs → sort_and_dedup_locked (xs ++ es) ≡ place_all es xs
sort_and_dedup_all xs es s =
    sort_and_dedup-place_all xs es ∙ ap (place_all es) (sort_and_dedup_sorted xs s)

pub place_all-IsSorted : (es xs : List RowEntry) → IsSorted xs → IsSorted (place_all es xs)
unfolding place_all
place_all-IsSorted [] xs s = s
place_all-IsSorted (e ∷ es) xs s =
    place_all-IsSorted es (place_entry e xs) (place-IsSorted e.key e.row xs s)
