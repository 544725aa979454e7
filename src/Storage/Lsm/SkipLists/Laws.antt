-- ===== src/Storage/Lsm/SkipLists/Laws.antt =====
-- The skip list as the list of its rows in the order of their keys.
use mathlib.Core.Path.{subst}
use test_db.Prelude.{
  ℕ, ◌≡◌, refl, sym, ap, ◌∙◌, arith, Bool, true, false, List, [], ◌∷◌, ◌++◌, Str, str_eq, str_ltb,
  str_leb, str_compare_swap, eq_of_str_eq, if◌then◌else◌, filter, All, Bool-cases, inl, inr,
}
use test_db.Storage.Row.{Row, ScanEntry}
use test_db.Storage.Lsm.Merge.Sources.{IsAscending, row_of, row_of-Above}
use test_db.Storage.Lsm.Segment.{from_key, past_key}
use test_db.Storage.Lsm.Segment.Ranges.{in_range, from_later, past_later, filter-past}
use test_db.Storage.Lsm.SkipLists.{
  SkipNode, SkipList, link_node, put_behind, put_node, value_behind, get_node, entry_of, scan_to,
  scan_behind, scan_nodes, all_of, find_less,
}
use test_db.Storage.Lsm.SkipLists.Inserted.{insert_row, Above-trans, rises}
use test_db.Storage.Lsm.SkipLists.Found.{
  Below, Settled, IsAscending-behind, find_less-IsAt, find_less-Settled,
}

all_of-append : (xs ys : List SkipNode) → all_of (xs ++ ys) ≡ all_of xs ++ all_of ys
all_of-append [] ys = refl
all_of-append (x ∷ xs) ys = ap (λ l. entry_of x ∷ l) (all_of-append xs ys)

insert_row-Below :
    (k : Str) (r : Row) (xs ys : List SkipNode)
    → Below k xs
    → insert_row k r (all_of (xs ++ ys)) ≡ all_of xs ++ insert_row k r (all_of ys)
unfolding insert_row
insert_row-Below k r [] ys b = refl
insert_row-Below k r (x ∷ xs) ys b =
    ground (arith, b.0, str_compare_swap x.key k, insert_row-Below k r xs ys b.1)

insert_row-same :
    (k : Str) (r : Row) (e : ScanEntry) (es : List ScanEntry)
    → str_eq e.key k ≡ true
    → insert_row k r (e ∷ es) ≡ record { key = k; value = r } ∷ es
unfolding insert_row
insert_row-same k r e es h = rw (insert_row, h) refl

insert_row-above :
    (k : Str) (r : Row) (e : ScanEntry) (es : List ScanEntry)
    → str_eq e.key k ≡ false
    → str_ltb e.key k ≡ false
    → insert_row k r (e ∷ es) ≡ record { key = k; value = r } ∷ e ∷ es
unfolding insert_row
insert_row-above k r e es h g = ground (arith, h, g, str_compare_swap e.key k)

swapped : (a b : Str) → str_eq a b ≡ false → str_eq b a ≡ false
swapped a b h = ground (arith, h, str_compare_swap a b)

module _ (toss : ℕ → Bool) (k : Str) (r : Row) (sl : SkipList) where
  all_of-link_node :
      (before behind : List SkipNode)
      → all_of (link_node toss k r (record { before = before; behind = behind }) sl).nodes
        ≡ all_of before ++ record { key = k; value = r } ∷ all_of behind
  unfolding link_node
  all_of-link_node before behind = all_of-append before _

  all_of-put_behind :
      (before behind : List SkipNode)
      → Below k before
      → Settled k behind
      → all_of (put_behind toss k r before behind sl).1.nodes
        ≡ insert_row k r (all_of (before ++ behind))
  unfolding put_behind insert_row
  all_of-put_behind before [] b s =
      all_of-link_node before [] ∙ sym (insert_row-Below k r before [] b)
  all_of-put_behind before (n ∷ ns) b s = elim (Bool-cases (str_eq n.key k)) [
    | inl same ↦ rw (same) (
        all_of-append before _
        ∙ ap (λ (e : Str). all_of before ++ record { key = e; value = r } ∷ all_of ns)
            (eq_of_str_eq n.key k same)
        ∙ ap (λ l. all_of before ++ l) (sym (insert_row-same k r (entry_of n) (all_of ns) same))
        ∙ sym (insert_row-Below k r before (n ∷ ns) b))
    | inr other ↦ rw (other) (
        all_of-link_node before (n ∷ ns)
        ∙ ap (λ l. all_of before ++ l) (sym (insert_row-above k r (entry_of n) (all_of ns) other s))
        ∙ sym (insert_row-Below k r before (n ∷ ns) b))
  ]

  -- Put inserts the row in the order of the keys, in the place of one with its key.
  pub all_of-put_node :
      IsAscending (all_of sl.nodes)
      → all_of (put_node toss k r sl).1.nodes ≡ insert_row k r (all_of sl.nodes)
  unfolding put_node
  all_of-put_node a =
      let at = find_less-IsAt k sl a in
      all_of-put_behind (find_less k sl).before (find_less k sl).behind at.below
        (find_less-Settled k sl)
      ∙ ap (λ ns. insert_row k r (all_of ns)) at.joined

row_of-Below :
    (k : Str) (xs ys : List SkipNode)
    → Below k xs
    → row_of k (all_of (xs ++ ys)) ≡ row_of k (all_of ys)
unfolding row_of
row_of-Below k [] ys b = refl
row_of-Below k (x ∷ xs) ys b = ground (arith, b.0, row_of-Below k xs ys b.1)

value_behind-row_of :
    (k : Str) (ns : List SkipNode)
    → Settled k ns
    → IsAscending (all_of ns)
    → value_behind k ns ≡ row_of k (all_of ns)
unfolding value_behind row_of
value_behind-row_of k [] s a = refl
value_behind-row_of k (n ∷ ns) s a = elim (Bool-cases (str_eq n.key k)) [
  | inl same ↦ rw (same) refl
  | inr other ↦ rw (other) (
      sym (
        row_of-Above k (all_of ns)
          (Above-trans k n.key (all_of ns) (rises k n.key (swapped n.key k other) s) a.0)))
]

-- Get finds the row under a key.
pub get_node-row_of :
    (k : Str) (sl : SkipList)
    → IsAscending (all_of sl.nodes)
    → get_node k sl ≡ row_of k (all_of sl.nodes)
unfolding get_node
get_node-row_of k sl a =
    let at = find_less-IsAt k sl a in
    let p = find_less k sl in
    let rising =
      IsAscending-behind p.before p.behind
        (subst (λ ns. IsAscending (all_of ns)) (sym at.joined) a) in
    value_behind-row_of k p.behind (find_less-Settled k sl) rising
    ∙ sym (row_of-Below k p.before p.behind at.below)
    ∙ ap (λ ns. row_of k (all_of ns)) at.joined

filter-Below :
    (start end : Str) (xs ys : List SkipNode)
    → Below start xs
    → filter (in_range start end) (all_of (xs ++ ys)) ≡ filter (in_range start end) (all_of ys)
filter-Below start end [] ys b = refl
filter-Below start end (x ∷ xs) ys b =
    ground (arith, b.0, str_compare_swap x.key start, filter-Below start end xs ys b.1)

scan_to-filter :
    (start end : Str) (ns : List SkipNode)
    → All (λ (e : ScanEntry). from_key start e ≡ true) (all_of ns)
    → IsAscending (all_of ns)
    → scan_to end ns ≡ filter (in_range start end) (all_of ns)
unfolding scan_to
scan_to-filter start end [] f a = refl
scan_to-filter start end (n ∷ ns) f a = elim (Bool-cases (past_key end (entry_of n))) [
  | inl past ↦ ground (
    arith,
    past,
    str_compare_swap n.key end,
    filter-past start end (all_of ns) (past_later end (entry_of n) (all_of ns) past a.0),
  )
  | inr inside ↦
      ground (arith, inside, f.0, str_compare_swap n.key end, scan_to-filter start end ns f.1 a.1)
]

scan_behind-filter :
    (start end : Str) (ns : List SkipNode)
    → Settled start ns
    → IsAscending (all_of ns)
    → scan_behind start end ns ≡ filter (in_range start end) (all_of ns)
unfolding scan_behind
scan_behind-filter start end [] s a = refl
scan_behind-filter start end (n ∷ ns) s a =
    let from : str_leb start n.key ≡ true = ground (arith, s, str_compare_swap start n.key) in
    ap (λ b. if b then scan_to end (n ∷ ns) else []) from
    ∙ scan_to-filter start end (n ∷ ns) (from, from_later start (entry_of n) (all_of ns) from a.0) a

-- A scan gives the rows of the range.
pub scan_nodes-filter :
    (start end : Str) (sl : SkipList)
    → IsAscending (all_of sl.nodes)
    → scan_nodes start end sl ≡ filter (in_range start end) (all_of sl.nodes)
unfolding scan_nodes
scan_nodes-filter start end sl a =
    let at = find_less-IsAt start sl a in
    let p = find_less start sl in
    let rising =
      IsAscending-behind p.before p.behind
        (subst (λ ns. IsAscending (all_of ns)) (sym at.joined) a) in
    scan_behind-filter start end p.behind (find_less-Settled start sl) rising
    ∙ sym (filter-Below start end p.before p.behind at.below)
    ∙ ap (λ ns. filter (in_range start end) (all_of ns)) at.joined
