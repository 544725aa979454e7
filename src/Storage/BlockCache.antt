-- ===== src/Storage/BlockCache.antt =====
-- pkg/storage/cache.go: BlockCache, the LRU cache of decoded columns.
pub mod Keys
pub mod Index
pub mod Sound
pub mod Evict
pub mod Calls
pub mod Invalid
pub mod Reads
pub mod History
mod Runs
use test_db.Prelude.{
  ℕ, zero, suc, ◌+◌, ◌-◌, ◌*◌, ◌/◌, Bool, true, false, not, ◌&&◌, Option, none, some, List, [], ◌∷◌,
  ◌++◌, Str, length, ltb, ◌==◌, if◌then◌else◌,
}
use test_db.Common.Types.{DataType}

pub record CacheKey : Type 0 where
  pub segment_id : ℕ
  pub column_idx : ℕ

abbrev pub key_eq : CacheKey → CacheKey → Bool
key_eq a b = (a.segment_id == b.segment_id) && (a.column_idx == b.column_idx)

-- The `any` of a decoded column; `other` stands for a type that the size does not know.
pub data Vector : Type 0 where
  no_data other : Vector
  int64s float64s uint64s times : List ℕ → Vector
  strings : List Str → Vector

-- decodedColumn, with the null bitmap by its length in bits.
pub record Decoded : Type 0 where
  pub values : Vector
  pub nulls : Option ℕ
  pub typ : DataType

unfoldable pub strings_size : List Str → ℕ
strings_size [] = 0
strings_size (s ∷ ss) = length s + 16 + strings_size ss

unfoldable pub nulls_size : Option ℕ → ℕ
nulls_size none = 0
nulls_size (some len) = len / 8 + 32

unfoldable pub estimate_decoded_size : Decoded → ℕ
estimate_decoded_size dc = elim dc.values [
  | no_data ↦ 64
  | other ↦ 64 + (256 + nulls_size dc.nulls)
  | int64s v ↦ 64 + (length v * 8 + nulls_size dc.nulls)
  | float64s v ↦ 64 + (length v * 8 + nulls_size dc.nulls)
  | uint64s v ↦ 64 + (length v * 8 + nulls_size dc.nulls)
  | times v ↦ 64 + (length v * 24 + nulls_size dc.nulls)
  | strings v ↦ 64 + (strings_size v + nulls_size dc.nulls)
]

pub record CacheEntry : Type 0 where
  pub key : CacheKey
  pub value : Decoded
  pub size : ℕ

-- `items` holds the keys of the map: the element under a key is the entry of `order` with the key. The
-- front of `order` comes first. A capacity of 0 stands for every capacity that is not positive.
pub record BlockCache : Type 0 where
  pub capacity : ℕ
  pub used : ℕ
  pub items : List CacheKey
  pub seg_index : List (ℕ × List CacheKey)
  pub order : List CacheEntry
  pub hits : ℕ
  pub misses : ℕ

unfoldable pub new_block_cache : ℕ → BlockCache
new_block_cache capacity = record {
  capacity = capacity;
  used = 0;
  items = [];
  seg_index = [];
  order = [];
  hits = 0;
  misses = 0;
}

unfoldable pub has : CacheKey → List CacheKey → Bool
has key [] = false
has key (k ∷ ks) = if key_eq k key then true else has key ks

-- delete(c.items, key)
unfoldable pub delete_item : CacheKey → List CacheKey → List CacheKey
delete_item key [] = []
delete_item key (k ∷ ks) = let rest = delete_item key ks in if key_eq k key then rest else k ∷ rest

unfoldable pub entry_of : CacheKey → List CacheEntry → Option CacheEntry
entry_of key [] = none
entry_of key (e ∷ es) = if key_eq e.key key then some e else entry_of key es

-- order.Remove of the element under the key
unfoldable pub remove_entry : CacheKey → List CacheEntry → List CacheEntry
remove_entry key [] = []
remove_entry key (e ∷ es) =
    let rest = remove_entry key es in if key_eq e.key key then es else e ∷ rest

unfoldable pub seg_keys : ℕ → List (ℕ × List CacheKey) → List CacheKey
seg_keys s [] = []
seg_keys s ((i, ks) ∷ idx) = if i == s then ks else seg_keys s idx

unfoldable pub delete_seg : ℕ → List (ℕ × List CacheKey) → List (ℕ × List CacheKey)
delete_seg s [] = []
delete_seg s ((i, ks) ∷ idx) =
    let rest = delete_seg s idx in if i == s then rest else (i, ks) ∷ rest

abbrev pub set_seg : ℕ → List CacheKey → List (ℕ × List CacheKey) → List (ℕ × List CacheKey)
set_seg s ks idx = (s, ks) ∷ delete_seg s idx

unfoldable pub add_to_seg_index : CacheKey → List (ℕ × List CacheKey) → List (ℕ × List CacheKey)
add_to_seg_index key idx = set_seg key.segment_id (seg_keys key.segment_id idx ++ key ∷ []) idx

unfoldable pub under_last : CacheKey → List CacheKey → List CacheKey
under_last k [] = k ∷ []
under_last k (l ∷ ks) = l ∷ k ∷ ks

-- keys[i] = keys[lastIdx], and the last place is dropped: what is behind place i then.
unfoldable pub last_to_front : List CacheKey → List CacheKey
last_to_front [] = []
last_to_front (k ∷ ks) = under_last k (last_to_front ks)

unfoldable pub swap_remove : CacheKey → List CacheKey → List CacheKey
swap_remove key [] = []
swap_remove key (k ∷ ks) =
    let rest = swap_remove key ks in if key_eq k key then last_to_front ks else k ∷ rest

unfoldable pub store_seg : ℕ → List CacheKey → List (ℕ × List CacheKey) → List (ℕ × List CacheKey)
store_seg s [] idx = delete_seg s idx
store_seg s (k ∷ ks) idx = set_seg s (k ∷ ks) idx

unfoldable pub remove_from_seg_index :
    CacheKey → List (ℕ × List CacheKey) → List (ℕ × List CacheKey)
remove_from_seg_index key idx =
    store_seg key.segment_id (swap_remove key (seg_keys key.segment_id idx)) idx

-- The entry leaves the list and the map.
abbrev pub without : CacheKey → CacheEntry → BlockCache → BlockCache
without key e c = record c {
  order = remove_entry key c.order;
  used = c.used - e.size;
  items = delete_item key c.items;
}

-- The entry leaves the index, too.
unfoldable pub drop_entry : CacheEntry → BlockCache → BlockCache
drop_entry e c = record (without e.key e c) { seg_index = remove_from_seg_index e.key c.seg_index }

unfoldable pub oldest : CacheEntry → List CacheEntry → CacheEntry
oldest e [] = e
oldest e (f ∷ es) = oldest f es

unfoldable pub drop_oldest : List CacheEntry → BlockCache → BlockCache
drop_oldest [] c = c
drop_oldest (e ∷ es) c = drop_entry (oldest e es) c

-- The loop that evicts from the back until `size` more bytes fit or nothing is left.
unfoldable pub evict : ℕ → ℕ → BlockCache → BlockCache
evict zero size c = c
evict (suc fuel) size c =
    let rest = evict fuel size (drop_oldest c.order c) in
    if ltb c.capacity (c.used + size) then rest else c

unfoldable pub push_front : CacheEntry → BlockCache → BlockCache
push_front e c = record c {
  order = e ∷ c.order;
  items = e.key ∷ delete_item e.key c.items;
  used = c.used + e.size;
  seg_index = add_to_seg_index e.key c.seg_index;
}

-- A key that is in the cache gets new data, and leaves the cache if that is too large.
unfoldable pub update : CacheEntry → CacheEntry → BlockCache → BlockCache
update old e c =
    let c' : BlockCache = record c {
      order = e ∷ remove_entry e.key c.order;
      used = (c.used - old.size) + e.size;
    } in
    if ltb c'.capacity c'.used then drop_entry e c' else c'

unfoldable pub put_entry : CacheEntry → Option CacheEntry → BlockCache → BlockCache
put_entry e (some old) c = update old e c
put_entry e none c =
    if ltb c.capacity e.size then c else push_front e (evict (length c.order) e.size c)

abbrev pub item_of : CacheKey → BlockCache → Option CacheEntry
item_of key c = if has key c.items then entry_of key c.order else none

unfoldable pub put : CacheKey → Decoded → BlockCache → BlockCache
put key dc c =
    let e : CacheEntry = record { key = key; value = dc; size = estimate_decoded_size dc } in
    if c.capacity == 0 then c else put_entry e (item_of key c) c

unfoldable pub look_found : Option CacheEntry → BlockCache → Option Decoded × BlockCache
look_found none c = (none, record c { misses = c.misses + 1 })
look_found (some e) c = (some e.value, record c { hits = c.hits + 1 })

-- The part of get under the read lock, with its counters.
unfoldable pub look : CacheKey → BlockCache → Option Decoded × BlockCache
look key c = if c.capacity == 0 then (none, c) else look_found (item_of key c) c

unfoldable pub move_to_front : CacheKey → Option CacheEntry → BlockCache → BlockCache
move_to_front key none c = c
move_to_front key (some e) c = record c { order = e ∷ remove_entry key c.order }

-- The part of get under the write lock, when other calls may have come between.
unfoldable pub touch : CacheKey → BlockCache → BlockCache
touch key c = move_to_front key (item_of key c) c

unfoldable pub drop_found : CacheKey → Option CacheEntry → BlockCache → BlockCache
drop_found key none c = c
drop_found key (some e) c = without key e c

-- The loop of Invalidate.
unfoldable pub drop_keys : List CacheKey → BlockCache → BlockCache
drop_keys [] c = c
drop_keys (k ∷ ks) c = drop_keys ks (drop_found k (item_of k c) c)

unfoldable pub invalidate : ℕ → BlockCache → BlockCache
invalidate s c =
    if c.capacity == 0
    then c
    else let c' = drop_keys (seg_keys s c.seg_index) c in
      record c' { seg_index = delete_seg s c'.seg_index }

unfoldable pub clear : BlockCache → BlockCache
clear c = record c { items = []; seg_index = []; order = []; used = 0 }
