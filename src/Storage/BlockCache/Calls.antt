-- ===== src/Storage/BlockCache/Calls.antt =====
-- Every call keeps the invariant, in any order; get is its two parts, with other calls between.
use test_db.Prelude.{
  ℕ, ◌+◌, ◌-◌, ◌≤◌, ◌≡◌, refl, sym, ap, ◌∙◌, arith, true, false, Option, none, some, List, ◌∷◌, ltb,
  length, ◌==◌, Bool-cases, Option-cases, inl, inr,
}
use test_db.Storage.BlockCache.{
  CacheKey, key_eq, Decoded, CacheEntry, BlockCache, estimate_decoded_size, has, entry_of,
  remove_entry, drop_entry, evict, push_front, update, put_entry, item_of, put, look_found, look,
  move_to_front, touch,
}
use test_db.Storage.BlockCache.Keys.{
  key_eq_refl, key_eq_sym, key_eq_left, keys, total, has_eq, has-delete_item, has-remove_entry,
  Distinct-remove_entry, key-entry_of, total-remove_entry, has-entry_of, is_there, has-is_there,
}
use test_db.Storage.BlockCache.Index.{IsIndexed, IsIndexed-same, add-IsIndexed}
use test_db.Storage.BlockCache.Sound.{
  IsListed, IsSound, item_of-entry_of, drop_entry-IsListed, drop_entry-IsIndexed, evict-IsSound,
}
use test_db.Storage.BlockCache.Evict.{evict-capacity, evict-fits, evict-kept}

-- An entry comes to the front in the place of the one under its key.
abbrev pub in_front : CacheKey → CacheEntry → ℕ → BlockCache → BlockCache
in_front key e used c = record c { order = e ∷ remove_entry key c.order; used = used }

module _ (key : CacheKey) (old e : CacheEntry) (used : ℕ) (c : BlockCache)
    (found : entry_of key c.order ≡ some old) (same : key_eq e.key key ≡ true)
    (l : IsListed c) where
  has-in_front : (j : CacheKey) → has j (keys (in_front key e used c).order) ≡ has j (keys c.order)
  unfolding has
  has-in_front j = ground (
    arith,
    has-remove_entry j key c.order l.distinct,
    has-entry_of key c.order old found,
    has_eq key j (keys c.order),
    key_eq_left e.key key j,
    same,
  )

  in_front-IsListed : used + old.size ≡ c.used + e.size → IsListed (in_front key e used c)
  unfolding total
  in_front-IsListed size = record {
    distinct = (
      ground (arith, has-remove_entry e.key key c.order l.distinct, key_eq_sym e.key key, same),
      Distinct-remove_entry key c.order l.distinct,
    );
    sized = omega (arith, total-remove_entry key c.order old found, l.sized, size);
    listed = λ k. l.listed k ∙ sym (has-in_front k);
  }

  in_front-IsIndexed :
      IsIndexed c.seg_index (keys c.order)
      → IsIndexed c.seg_index (keys (in_front key e used c).order)
  in_front-IsIndexed = IsIndexed-same c.seg_index (keys c.order) _ has-in_front

entry_of-front : (e : CacheEntry) (es : List CacheEntry) → entry_of e.key (e ∷ es) ≡ some e
unfolding entry_of
entry_of-front e es = ground (arith, key_eq_refl e.key)

used_holds :
    (key : CacheKey) (es : List CacheEntry) (old : CacheEntry)
    → entry_of key es ≡ some old
    → old.size ≤ total es
used_holds key es old found = omega (arith, total-remove_entry key es old found)

drop_again :
    (e : CacheEntry) (n : ℕ) (c : BlockCache)
    → n - e.size ≤ c.capacity
    → (drop_entry e (in_front e.key e n c)).used ≤ (drop_entry e (in_front e.key e n c)).capacity
unfolding drop_entry
drop_again e n c h = h

update-IsSound :
    (old e : CacheEntry) (c : BlockCache)
    → entry_of e.key c.order ≡ some old
    → IsSound c
    → IsSound (update old e c)
unfolding update
update-IsSound old e c found s =
    let n = (c.used - old.size) + e.size in
    let c' = in_front e.key e n c in
    let held = used_holds e.key c.order old found in
    let lists =
      in_front-IsListed e.key old e n c found (key_eq_refl e.key) s.lists
        (omega (arith, held, s.lists.sized)) in
    let index = in_front-IsIndexed e.key old e n c found (key_eq_refl e.key) s.lists s.index in
    elim (Bool-cases (ltb c.capacity n)) [
      | inl large ↦ rw (large) (record {
        lists = drop_entry-IsListed e c' (entry_of-front e (remove_entry e.key c.order)) lists;
        index = drop_entry-IsIndexed e c' lists index;
        bounded = drop_again e n c (omega (arith, s.bounded));
      })
      | inr fits ↦
          rw (fits) (record { lists = lists; index = index; bounded = ground (arith, fits) })
    ]

push_front-IsSound :
    (e : CacheEntry) (c : BlockCache)
    → has e.key (keys c.order) ≡ false
    → c.used + e.size ≤ c.capacity
    → IsSound c
    → IsSound (push_front e c)
unfolding push_front has total
push_front-IsSound e c new room s = record {
  lists = record {
    distinct = (new, s.lists.distinct);
    sized = omega (arith, s.lists.sized);
    listed = λ k. ground (arith, has-delete_item k e.key c.items, s.lists.listed k);
  };
  index = add-IsIndexed e.key c.seg_index (keys c.order) new s.index;
  bounded = room;
}

pub has-none :
    (key : CacheKey) (es : List CacheEntry) → entry_of key es ≡ none → has key (keys es) ≡ false
has-none key es h = has-is_there key es ∙ ap is_there h

-- A key that is not in the cache is not in it after the eviction.
evicted_new :
    (fuel size : ℕ) (key : CacheKey) (c : BlockCache)
    → IsSound c
    → entry_of key c.order ≡ none
    → has key (keys (evict fuel size c).order) ≡ false
evicted_new fuel size key c s new = elim (Option-cases (entry_of key (evict fuel size c).order)) [
  | inl gone ↦ has-none key (evict fuel size c).order gone
  | inr (x, there) ↦ absurd (cc (new, evict-kept fuel size key x c s there))
]

put_entry-IsSound :
    (e : CacheEntry) (o : Option CacheEntry) (c : BlockCache)
    → entry_of e.key c.order ≡ o
    → IsSound c
    → IsSound (put_entry e o c)
unfolding put_entry
put_entry-IsSound e (some old) c found s = update-IsSound old e c found s
put_entry-IsSound e none c new s = elim (Bool-cases (ltb c.capacity e.size)) [
  | inl large ↦ rw (large) s
  | inr small ↦
      let n = length c.order in
      let fits : e.size ≤ c.capacity = ground (arith, small) in
      rw (small) (
        push_front-IsSound e (evict n e.size c) (evicted_new n e.size e.key c s new)
          (omega (arith, evict-fits n e.size c s (omega arith) fits, evict-capacity n e.size c))
          (evict-IsSound n e.size c s))
]

pub put-IsSound :
    (key : CacheKey) (dc : Decoded) (c : BlockCache) → IsSound c → IsSound (put key dc c)
unfolding put
put-IsSound key dc c s = elim (Bool-cases (c.capacity == 0)) [
  | inl off ↦ rw (off) s
  | inr on ↦ rw (on) (
      put_entry-IsSound (record { key = key; value = dc; size = estimate_decoded_size dc })
        (item_of key c) c (sym (item_of-entry_of key c s.lists)) s)
]

look_found-IsSound :
    (o : Option CacheEntry) (c : BlockCache) → IsSound c → IsSound (look_found o c).1
unfolding look_found
look_found-IsSound none c s = record {
  lists = record { distinct = s.lists.distinct; sized = s.lists.sized; listed = s.lists.listed };
  index = s.index;
  bounded = s.bounded;
}
look_found-IsSound (some e) c s = record {
  lists = record { distinct = s.lists.distinct; sized = s.lists.sized; listed = s.lists.listed };
  index = s.index;
  bounded = s.bounded;
}

pub look-IsSound : (key : CacheKey) (c : BlockCache) → IsSound c → IsSound (look key c).1
unfolding look
look-IsSound key c s = elim (Bool-cases (c.capacity == 0)) [
  | inl off ↦ rw (off) s
  | inr on ↦ rw (on) (look_found-IsSound (item_of key c) c s)
]

move_to_front-IsSound :
    (key : CacheKey) (o : Option CacheEntry) (c : BlockCache)
    → entry_of key c.order ≡ o
    → IsSound c
    → IsSound (move_to_front key o c)
unfolding move_to_front
move_to_front-IsSound key none c found s = s
move_to_front-IsSound key (some e) c found s =
    let same = key-entry_of key c.order e found in
    record {
      lists = in_front-IsListed key e e c.used c found same s.lists refl;
      index = in_front-IsIndexed key e e c.used c found same s.lists s.index;
      bounded = s.bounded;
    }

pub touch-IsSound : (key : CacheKey) (c : BlockCache) → IsSound c → IsSound (touch key c)
unfolding touch
touch-IsSound key c s =
    move_to_front-IsSound key (item_of key c) c (sym (item_of-entry_of key c s.lists)) s
