-- ===== src/Storage/Lsm/SkipLists.antt =====
-- pkg/storage/memtable.go: the skip list and the memtable over it.
pub mod Inserted
pub mod Found
pub mod Laws
pub mod Tables
pub mod Contract
mod Runs
use test_db.Prelude.{
  ℕ, zero, suc, ◌+◌, ◌-◌, ◌*◌, ◌%◌, ◌^◌, Bool, true, false, not, Option, none, some, List, [], ◌∷◌,
  ◌++◌, Str, str_eq, str_ltb, str_leb, ltb, leb, ◌==◌, if◌then◌else◌, length,
}
use test_db.Common.Float.{int64_ltb}
use test_db.Storage.Row.{Row, ScanEntry}

-- A node with the highest level that it is linked into.
pub record SkipNode : Type 0 where
  pub key : Str
  pub value : Row
  pub height : ℕ

-- The nodes behind the head, as the links of level 0 join them. The link of level i out of a node, or
-- out of the head, goes to the next node that is linked into level i, which is `forward`. `tossed`
-- counts the calls of rand.Float64.
pub record SkipList : Type 0 where
  pub nodes : List SkipNode
  pub level : ℕ
  pub size : ℕ
  pub tossed : ℕ

abbrev pub new_skip_list : SkipList
new_skip_list = record { nodes = []; level = 0; size = 0; tossed = 0 }

-- The node that a link goes to, with the nodes that it passes over and those behind.
pub record Link : Type 0 where
  pub skipped : List SkipNode
  pub node : SkipNode
  pub behind : List SkipNode

abbrev pub passed : SkipNode → Option Link → Option Link
passed n none = none
passed n (some l) = some (record l { skipped = n ∷ l.skipped })

-- x.forward[i], where the nodes are those behind x.
unfoldable pub forward : ℕ → List SkipNode → Option Link
forward i [] = none
forward i (n ∷ ns) =
    let rest = forward i ns in
    if leb i n.height then some (record { skipped = []; node = n; behind = ns }) else passed n rest

-- Where x is: the nodes up to x, of which there are none for the head, and those behind it.
pub record Place : Type 0 where
  pub before : List SkipNode
  pub behind : List SkipNode

abbrev pub moved : Place → Link → Place
moved p l = record { before = p.before ++ (l.skipped ++ l.node ∷ []); behind = l.behind }

-- The inner loop of findLess; the nodes behind x are enough fuel.
unfoldable pub walk : ℕ → ℕ → Str → Place → Place
walk zero i key p = p
walk (suc fuel) i key p = elim (forward i p.behind) [
  | none ↦ p
  | some l ↦ let rest = walk fuel i key (moved p l) in if str_ltb l.node.key key then rest else p
]

-- The outer loop, from a level down to 0.
unfoldable pub descend : ℕ → Str → Place → Place
descend zero key p = walk (length p.behind) 0 key p
descend (suc i) key p = descend i key (walk (length p.behind) (suc i) key p)

unfoldable pub find_less : Str → SkipList → Place
find_less key sl = descend sl.level key (record { before = []; behind = sl.nodes })

-- randomLevel, where a toss is rand.Float64() < skipListP: the level and the tosses so far.
unfoldable pub toss_loop : ℕ → (ℕ → Bool) → ℕ → ℕ × ℕ
toss_loop zero toss at = (0, at + 1)
toss_loop (suc fuel) toss at =
    let rest = toss_loop fuel toss (at + 1) in if toss at then (suc rest.0, rest.1) else (0, at + 1)

abbrev pub random_level : (ℕ → Bool) → ℕ → ℕ × ℕ
random_level = toss_loop 15

-- A new node behind x; the list's level rises to the node's.
unfoldable pub link_node : (ℕ → Bool) → Str → Row → Place → SkipList → SkipList
link_node toss key value p sl =
    let drawn = random_level toss sl.tossed in
    record {
      nodes = p.before ++ record { key = key; value = value; height = drawn.0 } ∷ p.behind;
      level = if ltb sl.level drawn.0 then drawn.0 else sl.level;
      size = sl.size + 1;
      tossed = drawn.1;
    }

-- put behind x, with the old value.
unfoldable pub put_behind :
    (ℕ → Bool) → Str → Row → List SkipNode → List SkipNode → SkipList → Option Row × SkipList
put_behind toss key value before [] sl =
    (none, link_node toss key value (record { before = before; behind = [] }) sl)
put_behind toss key value before (n ∷ ns) sl =
    if str_eq n.key key
    then (some n.value, record sl { nodes = before ++ record n { value = value } ∷ ns })
    else (none, link_node toss key value (record { before = before; behind = n ∷ ns }) sl)

unfoldable pub put_node : (ℕ → Bool) → Str → Row → SkipList → Option Row × SkipList
put_node toss key value sl =
    let p = find_less key sl in put_behind toss key value p.before p.behind sl

unfoldable pub value_behind : Str → List SkipNode → Option Row
value_behind key [] = none
value_behind key (n ∷ ns) = if str_eq n.key key then some n.value else none

unfoldable pub get_node : Str → SkipList → Option Row
get_node key sl = value_behind key (find_less key sl).behind

abbrev pub entry_of : SkipNode → ScanEntry
entry_of n = record { key = n.key; value = n.value }

-- The loop of scanRange over the links of level 0.
unfoldable pub scan_to : Str → List SkipNode → List ScanEntry
scan_to end [] = []
scan_to end (n ∷ ns) =
    let rest = scan_to end ns in if str_leb n.key end then entry_of n ∷ rest else []

unfoldable pub scan_behind : Str → Str → List SkipNode → List ScanEntry
scan_behind start end [] = []
scan_behind start end (n ∷ ns) = if str_leb start n.key then scan_to end (n ∷ ns) else []

unfoldable pub scan_nodes : Str → Str → SkipList → List ScanEntry
scan_nodes start end sl = scan_behind start end (find_less start sl).behind

-- Sizes are int64 as 64-bit patterns.
pub record MemTable : Type 0 where
  pub tree : SkipList
  pub size : ℕ
  pub frozen : Bool

unfoldable pub estimate_row_size : Row → ℕ
estimate_row_size row = if length row.columns == 0 then 8 else 8 + length row.columns * 88

unfoldable pub size_after : Str → Row → Option Row → ℕ → ℕ
size_after key value none size = (size + (length key + estimate_row_size value)) % 2 ^ 64
size_after key value (some old) size =
    (size
      + (length key + estimate_row_size value)
      + 2 ^ 64
      - (length key + estimate_row_size old) % 2 ^ 64)
    % 2 ^ 64

abbrev pub empty_table : MemTable
empty_table = record { tree = new_skip_list; size = 0; frozen = false }

abbrev pub with_put : Str → Row → Option Row × SkipList → MemTable → MemTable
with_put key value (old, tree) m = record m { tree = tree; size = size_after key value old m.size }

-- Put, which gives `none` for ErrReadOnly.
unfoldable pub put : (ℕ → Bool) → Str → Row → MemTable → Option MemTable
put toss key value m =
    if m.frozen then none else some (with_put key value (put_node toss key value m.tree) m)

unfoldable pub should_flush : ℕ → MemTable → Bool
should_flush max_size m = not (int64_ltb m.size max_size)

abbrev pub all_of : List SkipNode → List ScanEntry
all_of [] = []
all_of (n ∷ ns) = entry_of n ∷ all_of ns

-- All
abbrev pub all : MemTable → List ScanEntry
all m = all_of m.tree.nodes
