-- ===== src/Storage/Lsm/SkipLists/Found.antt =====
-- Where findLess ends: behind the last node with a smaller key.
use mathlib.Core.Path.{subst}
use test_db.Prelude.{
  ℕ, zero, suc, ◌≤◌, ◌≡◌, refl, sym, ap, ◌∙◌, arith, true, false, Option, none, some, List, [], ◌∷◌,
  ◌++◌, Str, str_ltb, str_ltb_trans, leb, if◌then◌else◌, length, All, Bool-cases, Option-cases, inl,
  inr,
}
use test_db.Storage.Lsm.Merge.Sources.{Above, IsAscending}
use test_db.Storage.Lsm.SkipLists.{
  SkipNode, SkipList, Link, passed, forward, Place, moved, walk, descend, find_less, all_of,
}

abbrev pub Below : Str → List SkipNode → Type 0
Below key = All (λ (n : SkipNode). str_ltb n.key key ≡ true)

-- A place in the list behind nodes with smaller keys.
pub record IsAt (key : Str) (nodes : List SkipNode) (p : Place) : Type 0 where
  pub joined : p.before ++ p.behind ≡ nodes
  pub below : Below key p.before

-- The next key is none of the smaller ones.
abbrev pub Settled : Str → List SkipNode → Type 0
Settled key [] = Unit {0}
Settled key (n ∷ ns) = str_ltb n.key key ≡ false

append_assoc : (xs ys zs : List SkipNode) → (xs ++ ys) ++ zs ≡ xs ++ (ys ++ zs)
append_assoc [] ys zs = refl
append_assoc (x ∷ xs) ys zs = ap (λ l. x ∷ l) (append_assoc xs ys zs)

Below-append :
    (key : Str) (xs ys : List SkipNode) → Below key xs → Below key ys → Below key (xs ++ ys)
Below-append key [] ys h k = k
Below-append key (x ∷ xs) ys h k = (h.0, Below-append key xs ys h.1 k)

Below-trans : (j k : Str) (xs : List SkipNode) → str_ltb j k ≡ true → Below j xs → Below k xs
Below-trans j k [] h b = tt
Below-trans j k (x ∷ xs) h b = (str_ltb_trans x.key j k b.0 h, Below-trans j k xs h b.1)

pub IsAscending-behind :
    (xs ys : List SkipNode) → IsAscending (all_of (xs ++ ys)) → IsAscending (all_of ys)
IsAscending-behind [] ys a = a
IsAscending-behind (x ∷ xs) ys a = IsAscending-behind xs ys a.1

Above-at :
    (k : Str) (xs : List SkipNode) (n : SkipNode) (ys : List SkipNode)
    → Above k (all_of (xs ++ n ∷ ys))
    → str_ltb k n.key ≡ true
Above-at k [] n ys h = h.0
Above-at k (x ∷ xs) n ys h = Above-at k xs n ys h.1

Below-front :
    (xs : List SkipNode) (n : SkipNode) (ys : List SkipNode)
    → IsAscending (all_of (xs ++ n ∷ ys))
    → Below n.key xs
Below-front [] n ys a = tt
Below-front (x ∷ xs) n ys a = (Above-at x.key xs n ys a.0, Below-front xs n ys a.1)

abbrev joins : Option Link → List SkipNode
joins none = []
joins (some l) = l.skipped ++ l.node ∷ l.behind

passed-joined :
    (n : SkipNode) (ns : List SkipNode) (o : Option Link) (l : Link)
    → ((m : Link) → o ≡ some m → m.skipped ++ m.node ∷ m.behind ≡ ns)
    → passed n o ≡ some l
    → l.skipped ++ l.node ∷ l.behind ≡ n ∷ ns
passed-joined n ns none l f h = absurd (cc (h))
passed-joined n ns (some m) l f h =
    subst (λ (o : Option Link). joins o ≡ n ∷ ns) h (ap (λ xs. n ∷ xs) (f m refl))

-- A link leads to a node behind.
forward-joined :
    (i : ℕ) (ns : List SkipNode) (l : Link)
    → forward i ns ≡ some l
    → l.skipped ++ l.node ∷ l.behind ≡ ns
unfolding forward
forward-joined i [] l h = absurd (cc (h))
forward-joined i (n ∷ ns) l h = elim (Bool-cases (leb i n.height)) [
  | inl linked ↦
      subst (λ (o : Option Link). joins o ≡ n ∷ ns)
        (ap
            (λ b.
              if b
              then some (record { skipped = []; node = n; behind = ns })
              else passed n (forward i ns))
            (sym linked)
          ∙ h)
        refl
  | inr other ↦ passed-joined n ns (forward i ns) l (forward-joined i ns) (
      ap
        (λ b.
          if b
          then some (record { skipped = []; node = n; behind = ns })
          else passed n (forward i ns))
        (sym other)
      ∙ h)
]

module _ (key : Str) (nodes : List SkipNode) (a : IsAscending (all_of nodes)) where
  IsAt-moved :
      (i : ℕ) (p : Place) (l : Link)
      → IsAt key nodes p
      → forward i p.behind ≡ some l
      → str_ltb l.node.key key ≡ true
      → IsAt key nodes (moved p l)
  IsAt-moved i p l at h less =
      let behind = forward-joined i p.behind l h in
      let rises =
        IsAscending-behind p.before p.behind
          (subst (λ ns. IsAscending (all_of ns)) (sym at.joined) a) in
      record {
        joined =
            append_assoc p.before (l.skipped ++ l.node ∷ []) l.behind
            ∙ ap (λ ns. p.before ++ ns) (append_assoc l.skipped (l.node ∷ []) l.behind ∙ behind)
            ∙ at.joined;
        below = Below-append key p.before (l.skipped ++ l.node ∷ []) at.below (
            Below-append key l.skipped (l.node ∷ [])
              (Below-trans l.node.key key l.skipped less (
                Below-front l.skipped l.node l.behind
                  (subst (λ ns. IsAscending (all_of ns)) (sym behind) rises)))
              (less, tt));
      }

  walk-IsAt : (fuel i : ℕ) (p : Place) → IsAt key nodes p → IsAt key nodes (walk fuel i key p)
  unfolding walk
  walk-IsAt zero i p at = at
  walk-IsAt (suc fuel) i p at = elim (Option-cases (forward i p.behind)) [
    | inl last ↦ rw (walk, last) at
    | inr (l, there) ↦ elim (Bool-cases (str_ltb l.node.key key)) [
      | inl less ↦
          rw (walk, there, less) (walk-IsAt fuel i (moved p l) (IsAt-moved i p l at there less))
      | inr more ↦ rw (walk, there, more) at
    ]
  ]

  descend-IsAt : (i : ℕ) (p : Place) → IsAt key nodes p → IsAt key nodes (descend i key p)
  unfolding descend
  descend-IsAt zero p at = walk-IsAt (length p.behind) 0 p at
  descend-IsAt (suc i) p at =
      descend-IsAt i (walk (length p.behind) (suc i) key p)
        (walk-IsAt (length p.behind) (suc i) p at)

bottom_link :
    (n : SkipNode) (ns : List SkipNode)
    → forward 0 (n ∷ ns) ≡ some (record { skipped = []; node = n; behind = ns })
unfolding forward
bottom_link n ns = ground arith

-- Level 0 passes over no node, so its walk ends before a key that is not smaller.
walk-Settled :
    (key : Str) (fuel : ℕ) (before behind : List SkipNode)
    → length behind ≤ fuel
    → Settled key (walk fuel 0 key (record { before = before; behind = behind })).behind
unfolding walk forward
walk-Settled key zero before [] h = tt
walk-Settled key zero before (n ∷ ns) h = absurd (omega (arith, h))
walk-Settled key (suc fuel) before [] h = tt
walk-Settled key (suc fuel) before (n ∷ ns) h =
    let here = bottom_link n ns in
    elim (Bool-cases (str_ltb n.key key)) [
      | inl less ↦
          rw (walk, here, less) (walk-Settled key fuel (before ++ n ∷ []) ns (omega (arith, h)))
      | inr more ↦ rw (walk, here, more) more
    ]

descend-Settled : (key : Str) (i : ℕ) (p : Place) → Settled key (descend i key p).behind
unfolding descend
descend-Settled key zero p = walk-Settled key (length p.behind) p.before p.behind (omega arith)
descend-Settled key (suc i) p = descend-Settled key i (walk (length p.behind) (suc i) key p)

pub find_less-IsAt :
    (key : Str) (sl : SkipList)
    → IsAscending (all_of sl.nodes)
    → IsAt key sl.nodes (find_less key sl)
unfolding find_less
find_less-IsAt key sl a =
    descend-IsAt key sl.nodes a sl.level (record { before = []; behind = sl.nodes })
      (record { joined = refl; below = tt })

pub find_less-Settled : (key : Str) (sl : SkipList) → Settled key (find_less key sl).behind
unfolding find_less
find_less-Settled key sl = descend-Settled key sl.level (record { before = []; behind = sl.nodes })
