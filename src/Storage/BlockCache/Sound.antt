-- ===== src/Storage/BlockCache/Sound.antt =====
-- The invariant of the cache: its list, its map, its index and its count agree, within the capacity.
use mathlib.Core.Path.{subst}
use test_db.Prelude.{
  ℕ, zero, suc, ◌+◌, ◌≤◌, ◌≡◌, refl, sym, ap, ◌∙◌, arith, some, List, [], ◌∷◌, ltb, Bool-cases, inl,
  inr,
}
use test_db.Storage.BlockCache.{
  CacheKey, CacheEntry, BlockCache, has, entry_of, remove_entry, without, drop_entry, oldest,
  drop_oldest, evict, item_of,
}
use test_db.Storage.BlockCache.Keys.{
  keys, Distinct, total, has-delete_item, has-remove_entry, Distinct-remove_entry,
  total-remove_entry, entry_of-none, entry_of-oldest,
}
use test_db.Storage.BlockCache.Index.{IsIndexed, remove-IsIndexed}

-- The list has each key once, the map has its keys, and `used` is the size of its entries.
pub record IsListed (c : BlockCache) : Type 0 where
  pub distinct : Distinct (keys c.order)
  pub sized : c.used ≡ total c.order
  pub listed : (k : CacheKey) → has k c.items ≡ has k (keys c.order)

pub record IsSound (c : BlockCache) : Type 0 where
  pub lists : IsListed c
  pub index : IsIndexed c.seg_index (keys c.order)
  pub bounded : c.used ≤ c.capacity

-- The map and the list find the same.
pub item_of-entry_of :
    (key : CacheKey) (c : BlockCache) → IsListed c → item_of key c ≡ entry_of key c.order
item_of-entry_of key c l = elim (Bool-cases (has key (keys c.order))) [
  | inl there ↦ rw (l.listed key, there) refl
  | inr absent ↦ rw (l.listed key, absent) (sym (entry_of-none key c.order absent))
]

drop_bounded :
    (e : CacheEntry) (c : BlockCache)
    → c.used ≤ c.capacity
    → (drop_entry e c).used ≤ (drop_entry e c).capacity
unfolding drop_entry
drop_bounded e c h = omega (arith, h)

pub without-IsListed :
    (key : CacheKey) (e : CacheEntry) (c : BlockCache)
    → entry_of key c.order ≡ some e
    → IsListed c
    → IsListed (without key e c)
without-IsListed key e c found l = record {
  distinct = Distinct-remove_entry key c.order l.distinct;
  sized = omega (arith, total-remove_entry key c.order e found, l.sized);
  listed = λ k.
      ground (
        arith,
        has-delete_item k key c.items,
        l.listed k,
        has-remove_entry k key c.order l.distinct,
      );
}

pub drop_entry-IsListed :
    (e : CacheEntry) (c : BlockCache)
    → entry_of e.key c.order ≡ some e
    → IsListed c
    → IsListed (drop_entry e c)
unfolding drop_entry
drop_entry-IsListed e c found l = record {
  distinct = (without-IsListed e.key e c found l).distinct;
  sized = (without-IsListed e.key e c found l).sized;
  listed = (without-IsListed e.key e c found l).listed;
}

pub drop_entry-IsIndexed :
    (e : CacheEntry) (c : BlockCache)
    → IsListed c
    → IsIndexed c.seg_index (keys c.order)
    → IsIndexed (drop_entry e c).seg_index (keys (drop_entry e c).order)
unfolding drop_entry
drop_entry-IsIndexed e c l i =
    remove-IsIndexed e.key c.seg_index (keys c.order) (keys (remove_entry e.key c.order))
      (λ j. has-remove_entry j e.key c.order l.distinct) i

pub drop_entry-IsSound :
    (e : CacheEntry) (c : BlockCache)
    → entry_of e.key c.order ≡ some e
    → IsSound c
    → IsSound (drop_entry e c)
drop_entry-IsSound e c found s = record {
  lists = drop_entry-IsListed e c found s.lists;
  index = drop_entry-IsIndexed e c s.lists s.index;
  bounded = drop_bounded e c s.bounded;
}

pub drop_oldest-IsSound :
    (es : List CacheEntry) (c : BlockCache) → c.order ≡ es → IsSound c → IsSound (drop_oldest es c)
unfolding drop_oldest
drop_oldest-IsSound [] c e s = s
drop_oldest-IsSound (f ∷ es) c e s =
    drop_entry-IsSound (oldest f es) c
      (ap (λ l. entry_of (oldest f es).key l) e
        ∙ entry_of-oldest f es (subst (λ l. Distinct (keys l)) e s.lists.distinct))
      s

pub evict-IsSound : (fuel size : ℕ) (c : BlockCache) → IsSound c → IsSound (evict fuel size c)
unfolding evict
evict-IsSound zero size c s = s
evict-IsSound (suc fuel) size c s = elim (Bool-cases (ltb c.capacity (c.used + size))) [
  | inl full ↦
      rw (full)
        (evict-IsSound fuel size (drop_oldest c.order c) (drop_oldest-IsSound c.order c refl s))
  | inr fits ↦ rw (fits) s
]
