-- ===== src/Catalog/Shape.antt =====
-- The shape of a catalog that every change keeps.
use mathlib.Core.Path.{subst}
use test_db.Prelude.{
  ℕ, zero, suc, ◌+◌, ◌≤◌, ◌≡◌, refl, ap, ◌∙◌, true, false, some, List, [], ◌∷◌, ◌++◌, arith, Str,
  str_eq, if◌then◌else◌, take, drop, Dict, find, put, erase, Entries, Bool-cases, eq_of_str_eq,
  str_eq_left, inl, inr,
}
use test_db.Catalog.Schema.{
  ColumnDef, SegmentRef, Table, is_some, column_index, has_column, has_segment,
}

-- No two segments of a list have one ID.
abbrev pub DistinctIds : List SegmentRef → Type 0
DistinctIds [] = Unit
DistinctIds (s ∷ ss) = (has_segment s.id ss ≡ false) × DistinctIds ss

-- Every primary key column is a column of the table.
abbrev pub KeysAreColumns : List Str → List ColumnDef → Type 0
KeysAreColumns [] cols = Unit
KeysAreColumns (k ∷ ks) cols = (has_column k cols ≡ true) × KeysAreColumns ks cols

abbrev pub HasKey : List Str → Type 0
HasKey [] = ⊥
HasKey (k ∷ ks) = Unit

abbrev pub IsTable : Str → Table → Type 0
IsTable name t =
    (t.name ≡ name)
    × HasKey t.primary_key
    × KeysAreColumns t.primary_key t.columns
    × DistinctIds t.segment_list

abbrev pub IsWellFormed : Dict Table → Type 0
IsWellFormed d = Entries IsTable d

pub find-IsTable :
    (name : Str) (d : Dict Table) (t : Table)
    → IsWellFormed d
    → find name d ≡ some t
    → IsTable name t
unfolding find
find-IsTable name [] t h e = cc
find-IsTable name ((k, u) ∷ d) t h e = elim (Bool-cases (str_eq k name)) [
  | inl same ↦
      let here : u ≡ t = ground (arith, same, e) in
      subst (λ n. IsTable n t) (eq_of_str_eq k name same) (subst (λ x. IsTable k x) here h.0)
  | inr other ↦ find-IsTable name d t h.1 (ground (arith, other, e))
]

pub put-IsWellFormed :
    (name : Str) (t : Table) (d : Dict Table)
    → IsTable name t
    → IsWellFormed d
    → IsWellFormed (put name t d)
unfolding put
put-IsWellFormed name t [] p h = (p, tt)
put-IsWellFormed name t ((k, u) ∷ d) p h = elim (Bool-cases (str_eq k name)) [
  | inl same ↦ rw (same) (p, h.1)
  | inr other ↦ rw (other) (h.0, put-IsWellFormed name t d p h.1)
]

pub erase-IsWellFormed :
    (name : Str) (d : Dict Table) → IsWellFormed d → IsWellFormed (erase name d)
unfolding erase
erase-IsWellFormed name [] h = tt
erase-IsWellFormed name ((k, u) ∷ d) h = elim (Bool-cases (str_eq k name)) [
  | inl same ↦ rw (same) (erase-IsWellFormed name d h.1)
  | inr other ↦ rw (other) (h.0, erase-IsWellFormed name d h.1)
]

index_some :
    (name : Str) (i j : ℕ) (cols : List ColumnDef)
    → is_some (column_index name i cols) ≡ is_some (column_index name j cols)
unfolding column_index
index_some name i j [] = refl
index_some name i j (c ∷ cs) = ground (arith, index_some name (i + 1) (j + 1) cs)

-- A table has a column if its first column has the name, or one of the rest.
has_column-cons :
    (name : Str) (c : ColumnDef) (cs : List ColumnDef)
    → has_column name (c ∷ cs) ≡ (if str_eq c.name name then true else has_column name cs)
unfolding has_column column_index
has_column-cons name c cs = ground (arith, index_some name 1 0 cs)

empty_has_none {ℓ} : (name : Str) (P : Type ℓ) → has_column name [] ≡ true → P
unfolding has_column column_index
empty_has_none name P h = cc

pub has_column-append :
    (name : Str) (cols more : List ColumnDef)
    → has_column name cols ≡ true
    → has_column name (cols ++ more) ≡ true
has_column-append name [] more h = empty_has_none name _ h
has_column-append name (c ∷ cs) more h = ground (
  arith,
  h,
  has_column-cons name c cs,
  has_column-cons name c (cs ++ more),
  has_column-append name cs more,
)

-- The columns without the first of a name.
unfoldable pub without_column : Str → List ColumnDef → List ColumnDef
without_column name [] = []
without_column name (c ∷ cs) =
    let rest = without_column name cs in if str_eq c.name name then cs else c ∷ rest

index_bound :
    (name : Str) (i n : ℕ) (cols : List ColumnDef) → column_index name i cols ≡ some n → i ≤ n
unfolding column_index
index_bound name i n [] h = cc
index_bound name i n (c ∷ cs) h = ground (arith, h, index_bound name (i + 1) n cs)

-- Cutting a list at the index of a column drops that column.
cut_column :
    (name : Str) (i n : ℕ) (cols : List ColumnDef)
    → column_index name i cols ≡ some (i + n)
    → take n cols ++ drop (suc n) cols ≡ without_column name cols
unfolding column_index without_column
cut_column name i n [] h = cc
cut_column name i zero (c ∷ cs) h = ground (arith, h, index_bound name (i + 1) i cs)
cut_column name i (suc n) (c ∷ cs) h =
    let next : column_index name (i + 1) cs ≡ some (i + 1 + n) = ground (arith, h) in
    let rest = cut_column name (i + 1) n cs next in
    elim (Bool-cases (str_eq c.name name)) [
      | inl same ↦ ground (arith, same, h)
      | inr other ↦ rw (other) (ap (λ l. c ∷ l) rest)
    ]

pub cut_column_lem :
    (name : Str) (n : ℕ) (cols : List ColumnDef)
    → column_index name 0 cols ≡ some n
    → take n cols ++ drop (suc n) cols ≡ without_column name cols
cut_column_lem name n cols h = cut_column name 0 n cols (h ∙ ap (λ m. some m) (omega arith))

pub has_column-without :
    (name other : Str) (cols : List ColumnDef)
    → str_eq name other ≡ false
    → has_column other (without_column name cols) ≡ has_column other cols
unfolding without_column
has_column-without name other [] d = refl
has_column-without name other (c ∷ cs) d = ground (
  arith,
  d,
  str_eq_left c.name name other,
  has_column-without name other cs d,
  has_column-cons other c cs,
  has_column-cons other c (without_column name cs),
)

-- A column at the end, under a name that no other has, is the one that leaves.
pub without_column-append :
    (name : Str) (cols : List ColumnDef) (def : ColumnDef)
    → has_column name cols ≡ false
    → str_eq def.name name ≡ true
    → without_column name (cols ++ def ∷ []) ≡ cols
unfolding without_column
without_column-append name [] def free same = ground (arith, same)
without_column-append name (c ∷ cs) def free same =
    ground (arith, same, free, has_column-cons name c cs, without_column-append name cs def)

pub has_column-last :
    (name : Str) (cols : List ColumnDef) (def : ColumnDef)
    → str_eq def.name name ≡ true
    → has_column name (cols ++ def ∷ []) ≡ true
has_column-last name [] def same = unfold has_column column_index in ground (arith, same)
has_column-last name (c ∷ cs) def same =
    ground (arith, same, has_column-cons name c (cs ++ def ∷ []), has_column-last name cs def)
