-- ===== src/Storage/Memory/Shape.antt =====
-- The operations of the in-memory engine on a sorted slice, as plain recursions on it.
use Prim.Native.Nat.{Ordering}
use test_db.Prelude.{
  ℕ, zero, suc, ◌<◌, ◌≡◌, refl, ap, sym, ◌∙◌, true, Option, none, some, List, [], ◌∷◌, arith, Str,
  str_compare, str_eq, eq_of_str_compare, str_compare_swap, str_lt_trans, length, if◌then◌else◌,
  All, holds_at, position, IsUpward, search_elems, search_elems-position,
}
use mathlib.Core.Path.{subst}
use test_db.Storage.Row.{Row}
use test_db.Storage.Memory.{RowEntry, at_least, upsert_at, upsert_locked, remove_at, row_at}

-- Every key of the list is greater than `key`.
abbrev pub Below : Str → List RowEntry → Type 0
Below key xs = All (λ (x : RowEntry). str_compare key x.key ≡ Ordering.lt) xs

-- Keys rise strictly: no key stands twice.
abbrev pub IsSorted : List RowEntry → Type 0
IsSorted [] = Unit
IsSorted (x ∷ xs) = Below x.key xs × IsSorted xs

-- The row under a key.
unfoldable pub find : Str → List RowEntry → Option Row
find key [] = none
find key (x ∷ xs) = if str_eq x.key key then some x.row else find key xs

-- A row put in its place.
unfoldable pub place : Str → Row → List RowEntry → List RowEntry
place key row [] = record { key = key; row = row } ∷ []
place key row (x ∷ xs) =
    let rest = place key row xs in
    elim (str_compare key x.key) [
      | Ordering.lt ↦ record { key = key; row = row } ∷ x ∷ xs
      | Ordering.eq ↦ record x { row = row } ∷ xs
      | Ordering.gt ↦ x ∷ rest
    ]

-- The rows of all other keys.
unfoldable pub without : Str → List RowEntry → List RowEntry
without key [] = []
without key (x ∷ xs) = if str_eq x.key key then xs else x ∷ without key xs

pub Below-trans :
    (j k : Str) (xs : List RowEntry) → str_compare j k ≡ Ordering.lt → Below k xs → Below j xs
Below-trans j k [] h b = tt
Below-trans j k (x ∷ xs) h b = (str_lt_trans j k x.key h b.0, Below-trans j k xs h b.1)

pub find-Below : (key : Str) (xs : List RowEntry) → Below key xs → find key xs ≡ none
unfolding find
find-Below key [] b = refl
find-Below key (x ∷ xs) b = ground (arith, str_compare_swap key x.key, find-Below key xs b.1)

without-Below : (key : Str) (xs : List RowEntry) → Below key xs → without key xs ≡ xs
unfolding without
without-Below key [] b = refl
without-Below key (x ∷ xs) b = ground (arith, str_compare_swap key x.key, without-Below key xs b.1)

-- Past the first key that is at least `key`, all are.
above_at_least :
    (key : Str) (xs : List RowEntry)
    → Below key xs
    → (i : ℕ) → i < length xs
    → holds_at (at_least key) xs i ≡ true
above_at_least key [] b i h = absurd (omega arith)
above_at_least key (x ∷ xs) b zero h = ground (arith, b.0)
above_at_least key (x ∷ xs) b (suc i) h = above_at_least key xs b.1 i (omega arith)

pub at_least-Below :
    (key : Str) (x : RowEntry) (xs : List RowEntry)
    → at_least key x ≡ true
    → Below x.key xs
    → Below key xs
at_least-Below key x xs h b =
    elim (str_compare key x.key) as (λ o. str_compare key x.key ≡ o → Below key xs) [
      | Ordering.lt ↦ λ e. Below-trans key x.key xs e b
      | Ordering.eq ↦ λ e. subst (λ k. Below k xs) (sym (eq_of_str_compare key x.key e)) b
      | Ordering.gt ↦ λ e. cc
    ]
      refl

pub IsSorted-IsUpward : (key : Str) (xs : List RowEntry) → IsSorted xs → IsUpward (at_least key) xs
IsSorted-IsUpward key [] s = tt
IsSorted-IsUpward key (x ∷ xs) s =
    (λ h. above_at_least key xs (at_least-Below key x xs h s.0), IsSorted-IsUpward key xs s.1)

upsert_at-position :
    (key : Str) (row : Row) (xs : List RowEntry)
    → upsert_at key row xs (position (at_least key) xs) ≡ place key row xs
unfolding upsert_at position place
upsert_at-position key row [] = refl
upsert_at-position key row (x ∷ xs) =
    ground (arith, str_compare_swap key x.key, upsert_at-position key row xs)

remove_at-position :
    (key : Str) (xs : List RowEntry)
    → IsSorted xs
    → remove_at key xs (position (at_least key) xs) ≡ without key xs
unfolding remove_at position without
remove_at-position key [] s = refl
remove_at-position key (x ∷ xs) s = ground (
  arith,
  str_compare_swap key x.key,
  remove_at-position key xs s.1,
  without-Below key xs,
  Below-trans key x.key xs,
)

row_at-position :
    (key : Str) (xs : List RowEntry)
    → IsSorted xs
    → row_at key xs (position (at_least key) xs) ≡ find key xs
unfolding row_at position find
row_at-position key [] s = refl
row_at-position key (x ∷ xs) s = ground (
  arith,
  str_compare_swap key x.key,
  row_at-position key xs s.1,
  find-Below key xs,
  Below-trans key x.key xs,
)

module _ (key : Str) (xs : List RowEntry) (s : IsSorted xs) where
  abbrev found_at : search_elems (at_least key) xs ≡ position (at_least key) xs
  found_at = search_elems-position (at_least key) xs (IsSorted-IsUpward key xs s)

  pub upsert_locked-place : (row : Row) → upsert_locked key row xs ≡ place key row xs
  unfolding upsert_locked
  upsert_locked-place row = ap (upsert_at key row xs) found_at ∙ upsert_at-position key row xs

  pub remove_at-without : remove_at key xs (search_elems (at_least key) xs) ≡ without key xs
  remove_at-without = ap (remove_at key xs) found_at ∙ remove_at-position key xs s

  pub row_at-find : row_at key xs (search_elems (at_least key) xs) ≡ find key xs
  row_at-find = ap (row_at key xs) found_at ∙ row_at-position key xs s
