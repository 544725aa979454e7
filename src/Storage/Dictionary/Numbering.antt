-- ===== src/Storage/Dictionary/Numbering.antt =====
-- The dictionary that encodeDict builds: every index of a row names its string.
use test_db.Prelude.{
  ℕ, zero, suc, ◌+◌, ◌%◌, ◌^◌, ◌≤◌, ◌<◌, ◌≡◌, refl, sym, ◌∙◌, true, false, Option, none, some, List,
  [], ◌∷◌, ◌++◌, Str, str_eq, eq_of_str_eq, Dict, find, put, find-put, find-put_other, length,
  length-append, get_elem?, Bool-cases, inl, inr, arith,
}
use test_db.Storage.Dictionary.{
  Cell, StringTable, none_numbered, index_or_add, add_string, number_rows,
}

-- The indices are those of the rows' strings; a null has any index.
abbrev pub AreIndexed : List Str → List Cell → List ℕ → Type 0
AreIndexed dict [] [] = Unit
AreIndexed dict ((true, s) ∷ cells) (i ∷ is) = AreIndexed dict cells is
AreIndexed dict ((false, s) ∷ cells) (i ∷ is) =
    (get_elem? dict i ≡ some s) × AreIndexed dict cells is
AreIndexed dict _ _ = ⊥

-- The map points at the strings of the dictionary.
abbrev Agrees : StringTable → Type 0
Agrees b = (s : Str) (i : ℕ) → find s b.dict_map ≡ some i → get_elem? b.dict i ≡ some s

abbrev Extends : List Str → List Str → Type 0
Extends d d' = (i : ℕ) (s : Str) → get_elem? d i ≡ some s → get_elem? d' i ≡ some s

get_elem?-append : (xs ys : List Str) → Extends xs (xs ++ ys)
get_elem?-append [] ys i s h = absurd (cc (h))
get_elem?-append (x ∷ xs) ys zero s h = h
get_elem?-append (x ∷ xs) ys (suc i) s h = get_elem?-append xs ys i s h

get_elem?-last : (xs : List Str) (s : Str) → get_elem? (xs ++ s ∷ []) (length xs) ≡ some s
get_elem?-last [] s = refl
get_elem?-last (x ∷ xs) s = get_elem?-last xs s

pub get_elem?-below : (xs : List Str) (i : ℕ) (s : Str) → get_elem? xs i ≡ some s → i < length xs
get_elem?-below [] i s h = absurd (cc (h))
get_elem?-below (x ∷ xs) zero s h = omega arith
get_elem?-below (x ∷ xs) (suc i) s h = omega (arith, get_elem?-below xs i s h)

abbrev Added : Str → StringTable → ℕ × StringTable → Type 0
Added s b r =
    (get_elem? r.1.dict r.0 ≡ some s)
    × Agrees r.1
    × Extends b.dict r.1.dict
    × (length r.1.dict ≤ suc (length b.dict))

put-Agrees :
    (s : Str) (d : Dict ℕ) (dict : List Str)
    → Agrees (record { dict_map = d; dict = dict })
    → Agrees (record { dict_map = put s (length dict) d; dict = dict ++ s ∷ [] })
put-Agrees s d dict agrees u i h = elim (Bool-cases (str_eq s u)) [
  | inl same ↦
      let u=s : s ≡ u = eq_of_str_eq s u same in
      let i=n : length dict ≡ i = cc (find-put s (length dict) d, u=s, h) in
      cc (get_elem?-last dict s, u=s, i=n)
  | inr other ↦
      get_elem?-append dict (s ∷ []) i u
        (agrees u i (sym (find-put_other s u (length dict) d other) ∙ h))
]

added_as :
    (s : Str) (b : StringTable) (o : Option ℕ)
    → find s b.dict_map ≡ o
    → Agrees b
    → length b.dict < 2 ^ 32
    → Added s b (index_or_add s b o)
unfolding index_or_add
added_as s b none e agrees room =
    let n : length b.dict % 2 ^ 32 ≡ length b.dict = omega arith in
    rw (n) (
      get_elem?-last b.dict s,
      put-Agrees s b.dict_map b.dict agrees,
      get_elem?-append b.dict (s ∷ []),
      omega (arith, length-append b.dict (s ∷ [])),
    )
added_as s b (some i) e agrees room = (agrees s i e, agrees, λ j u h. h, omega arith)

added : (s : Str) (b : StringTable) → Agrees b → length b.dict < 2 ^ 32 → Added s b (add_string s b)
unfolding add_string
added s b = added_as s b (find s b.dict_map) refl

abbrev Numbered : List Cell → StringTable → List ℕ × StringTable → Type 0
Numbered cells b r =
    AreIndexed r.1.dict cells r.0
    × Extends b.dict r.1.dict
    × (length r.1.dict ≤ length b.dict + length cells)

Numbered-from :
    (cells : List Cell) (b : StringTable)
    → Agrees b
    → length b.dict + length cells < 2 ^ 32
    → Numbered cells b (number_rows cells b)
unfolding number_rows
Numbered-from [] b agrees room = (tt, λ i s h. h, omega arith)
Numbered-from ((true, s) ∷ cells) b agrees room =
    let rest = Numbered-from cells b agrees (omega arith) in (rest.0, rest.1, omega (arith, rest.2))
Numbered-from ((false, s) ∷ cells) b agrees room =
    let one = added s b agrees (omega arith) in
    let r = add_string s b in
    let rest = Numbered-from cells r.1 one.1 (omega (arith, one.3)) in
    ((rest.1 r.0 s one.0, rest.0), λ i u h. rest.1 i u (one.2 i u h), omega (arith, one.3, rest.2))

-- From an empty dictionary.
pub number_rows-AreIndexed :
    (cells : List Cell)
    → length cells < 2 ^ 32
    → AreIndexed (number_rows cells none_numbered).1.dict cells (number_rows cells none_numbered).0
      × (length (number_rows cells none_numbered).1.dict ≤ length cells)
unfolding find
number_rows-AreIndexed cells room =
    let all = Numbered-from cells none_numbered (λ s i h. absurd (cc (h))) (omega arith) in
    (all.0, omega (arith, all.2))
