-- ===== src/Storage/BlockCache/Invalid.antt =====
-- Invalidate and Clear.
use mathlib.Core.Path.{subst}
use test_db.Prelude.{
  ℕ, ◌≤◌, ◌≡◌, refl, sym, ◌∙◌, arith, false, not, ◌&&◌, Option, none, some, List, [], ◌∷◌, ◌==◌,
  if◌then◌else◌, Bool-cases, inl, inr,
}
use test_db.Storage.BlockCache.{
  CacheKey, key_eq, CacheEntry, BlockCache, new_block_cache, has, entry_of, seg_keys, delete_seg,
  item_of, drop_found, drop_keys, invalidate, clear,
}
use test_db.Storage.BlockCache.Keys.{keys, total, has_eq, is_there, has-is_there}
use test_db.Storage.BlockCache.Index.{IsIndexed, IsIndexed-empty, delete_seg-IsIndexed}
use test_db.Storage.BlockCache.Sound.{IsListed, IsSound, item_of-entry_of, without-IsListed}
use test_db.Storage.BlockCache.Evict.{entry_of-remove_entry}

drop_found-IsListed :
    (key : CacheKey) (o : Option CacheEntry) (c : BlockCache)
    → entry_of key c.order ≡ o
    → IsListed c
    → IsListed (drop_found key o c)
unfolding drop_found
drop_found-IsListed key none c found l = l
drop_found-IsListed key (some e) c found l = without-IsListed key e c found l

drop_keys-IsListed : (ks : List CacheKey) (c : BlockCache) → IsListed c → IsListed (drop_keys ks c)
unfolding drop_keys
drop_keys-IsListed [] c l = l
drop_keys-IsListed (k ∷ ks) c l =
    drop_keys-IsListed ks (drop_found k (item_of k c) c)
      (drop_found-IsListed k (item_of k c) c (sym (item_of-entry_of k c l)) l)

-- The index and the capacity stay, and the count does not grow.
abbrev Frame : BlockCache → BlockCache → Type 0
Frame c c' = (c'.seg_index ≡ c.seg_index) × (c'.capacity ≡ c.capacity) × (c'.used ≤ c.used)

drop_found-Frame :
    (key : CacheKey) (o : Option CacheEntry) (c : BlockCache) → Frame c (drop_found key o c)
unfolding drop_found
drop_found-Frame key none c = (refl, refl, omega arith)
drop_found-Frame key (some e) c = (refl, refl, omega arith)

drop_keys-Frame : (ks : List CacheKey) (c : BlockCache) → Frame c (drop_keys ks c)
unfolding drop_keys
drop_keys-Frame [] c = (refl, refl, omega arith)
drop_keys-Frame (k ∷ ks) c =
    let one = drop_found-Frame k (item_of k c) c in
    let rest = drop_keys-Frame ks (drop_found k (item_of k c) c) in
    (rest.0 ∙ one.0, rest.1 ∙ one.1, omega (arith, one.2, rest.2))

entry_of_is_none : (o : Option CacheEntry) → is_there o ≡ false → o ≡ none
entry_of_is_none none h = refl
entry_of_is_none (some e) h = absurd (cc (h))

entry_of-drop_found :
    (j key : CacheKey) (o : Option CacheEntry) (c : BlockCache)
    → entry_of key c.order ≡ o
    → IsListed c
    → entry_of j (drop_found key o c).order ≡ (if key_eq key j then none else entry_of j c.order)
unfolding drop_found
entry_of-drop_found j key (some e) c found l = entry_of-remove_entry j key c.order l.distinct
entry_of-drop_found j key none c found l = ground (
  arith,
  found,
  has-is_there key c.order,
  has-is_there j c.order,
  has_eq key j (keys c.order),
  entry_of_is_none (entry_of j c.order),
)

entry_of-drop_keys :
    (j : CacheKey) (ks : List CacheKey) (c : BlockCache)
    → IsListed c
    → entry_of j (drop_keys ks c).order ≡ (if has j ks then none else entry_of j c.order)
unfolding drop_keys has
entry_of-drop_keys j [] c l = refl
entry_of-drop_keys j (k ∷ ks) c l =
    let found = sym (item_of-entry_of k c l) in
    ground (
      arith,
      entry_of-drop_keys j ks (drop_found k (item_of k c) c)
          (drop_found-IsListed k (item_of k c) c found l),
      entry_of-drop_found j k (item_of k c) c found l,
    )

has-drop_keys :
    (j : CacheKey) (ks : List CacheKey) (c : BlockCache)
    → IsListed c
    → has j (keys (drop_keys ks c).order) ≡ has j (keys c.order) && not (has j ks)
has-drop_keys j ks c l = ground (
  arith,
  entry_of-drop_keys j ks c l,
  has-is_there j (drop_keys ks c).order,
  has-is_there j c.order,
)

pub invalidate-IsSound : (s : ℕ) (c : BlockCache) → IsSound c → IsSound (invalidate s c)
unfolding invalidate
invalidate-IsSound s c h = elim (Bool-cases (c.capacity == 0)) [
  | inl off ↦ rw (off) h
  | inr on ↦
      let ks = seg_keys s c.seg_index in
      let frame = drop_keys-Frame ks c in
      let lists = drop_keys-IsListed ks c h.lists in
      rw (on) (record {
        lists = record { distinct = lists.distinct; sized = lists.sized; listed = lists.listed };
        index =
            subst (λ i. IsIndexed (delete_seg s i) (keys (drop_keys ks c).order)) (sym frame.0)
              (delete_seg-IsIndexed s c.seg_index (keys c.order) (keys (drop_keys ks c).order)
                (λ j. has-drop_keys j ks c h.lists) h.index);
        bounded = omega (arith, frame.1, frame.2, h.bounded);
      })
]

-- After it, no key of the segment is found, and the others are as before.
pub entry_of-invalidate :
    (key : CacheKey) (s : ℕ) (c : BlockCache)
    → IsSound c
    → (c.capacity == 0) ≡ false
    → entry_of key (invalidate s c).order
      ≡ (if key.segment_id == s then none else entry_of key c.order)
unfolding invalidate
entry_of-invalidate key s c h on = rw (on) (
    ground (
      arith,
      entry_of-drop_keys key (seg_keys s c.seg_index) c h.lists,
      h.index.indexed key,
      h.index.own s key,
      has-is_there key c.order,
      entry_of_is_none (entry_of key c.order),
    ))

pub invalidate-capacity : (s : ℕ) (c : BlockCache) → (invalidate s c).capacity ≡ c.capacity
unfolding invalidate
invalidate-capacity s c = elim (Bool-cases (c.capacity == 0)) [
  | inl off ↦ rw (off) refl
  | inr on ↦ rw (on) ((drop_keys-Frame (seg_keys s c.seg_index) c).1)
]

pub clear-IsSound : (c : BlockCache) → IsSound (clear c)
unfolding clear total has
clear-IsSound c = record {
  lists = record { distinct = tt; sized = refl; listed = λ k. refl };
  index = IsIndexed-empty;
  bounded = omega arith;
}

pub new-IsSound : (capacity : ℕ) → IsSound (new_block_cache capacity)
unfolding new_block_cache total has
new-IsSound capacity = record {
  lists = record { distinct = tt; sized = refl; listed = λ k. refl };
  index = IsIndexed-empty;
  bounded = omega arith;
}
