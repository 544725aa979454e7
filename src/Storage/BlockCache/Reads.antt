-- ===== src/Storage/BlockCache/Reads.antt =====
-- What is found after a put.
use test_db.Prelude.{
  ◌≤◌, ◌≡◌, refl, sym, ap, ◌∙◌, arith, true, false, Option, none, some, List, [], ◌∷◌, length, ◌==◌,
  if◌then◌else◌, Bool-cases, inl, inr,
}
use test_db.Storage.BlockCache.{
  CacheKey, key_eq, Decoded, CacheEntry, BlockCache, estimate_decoded_size, has, entry_of,
  remove_entry, drop_entry, push_front, update, put_entry, item_of, put, look_found, look,
}
use test_db.Storage.BlockCache.Keys.{key_eq_refl, key_eq_sym, key_eq_left}
use test_db.Storage.BlockCache.Sound.{IsSound, item_of-entry_of}
use test_db.Storage.BlockCache.Evict.{entry_of-remove_entry, evict-capacity, evict-kept}

-- The data under a key is that of the new entry, or what was there before.
abbrev pub Follows : CacheKey → CacheEntry → List CacheEntry → List CacheEntry → Type 0
Follows j e es es' =
    (x : CacheEntry)
    → entry_of j es' ≡ some x
    → (if key_eq e.key j then some e else entry_of j es) ≡ some x

update-Follows :
    (j : CacheKey) (old e : CacheEntry) (c : BlockCache)
    → IsSound c
    → Follows j e c.order (update old e c).order
unfolding update drop_entry entry_of remove_entry
update-Follows j old e c s x h =
    ground (arith, h, entry_of-remove_entry j e.key c.order s.lists.distinct, key_eq_refl e.key)

pub entry_of-same :
    (k j : CacheKey) (es : List CacheEntry) → key_eq k j ≡ true → entry_of k es ≡ entry_of j es
unfolding entry_of
entry_of-same k j [] h = refl
entry_of-same k j (e ∷ es) h =
    ground (
      arith,
      entry_of-same k j es h,
      key_eq_left k j e.key h,
      key_eq_sym k e.key,
      key_eq_sym j e.key,
    )

put_entry-Follows :
    (j : CacheKey) (e : CacheEntry) (o : Option CacheEntry) (c : BlockCache)
    → entry_of e.key c.order ≡ o
    → IsSound c
    → Follows j e c.order (put_entry e o c).order
unfolding put_entry push_front entry_of
put_entry-Follows j e (some old) c found s x h = update-Follows j old e c s x h
put_entry-Follows j e none c new s x h =
    ground
      (arith, h, new, entry_of-same e.key j c.order, evict-kept (length c.order) e.size j x c s)

pub put-Follows :
    (j key : CacheKey) (dc : Decoded) (c : BlockCache)
    → IsSound c
    → (c.capacity == 0) ≡ false
    → Follows j
        (record { key = key; value = dc; size = estimate_decoded_size dc })
        c.order
        (put key dc c).order
unfolding put
put-Follows j key dc c s on =
    let e : CacheEntry = record { key = key; value = dc; size = estimate_decoded_size dc } in
    rw (on) (put_entry-Follows j e (item_of key c) c (sym (item_of-entry_of key c s.lists)) s)

-- A small entry under a new key is in front afterwards.
put_entry-new :
    (e : CacheEntry) (c : BlockCache)
    → e.size ≤ c.capacity
    → item_of e.key (put_entry e none c) ≡ some e
unfolding put_entry push_front entry_of has
put_entry-new e c small = ground (arith, small, key_eq_refl e.key)

put_entry-capacity :
    (e : CacheEntry) (o : Option CacheEntry) (c : BlockCache)
    → (put_entry e o c).capacity ≡ c.capacity
unfolding put_entry push_front update drop_entry
put_entry-capacity e (some old) c = ground arith
put_entry-capacity e none c = ground (arith, evict-capacity (length c.order) e.size c)

pub put-capacity :
    (key : CacheKey) (dc : Decoded) (c : BlockCache) → (put key dc c).capacity ≡ c.capacity
unfolding put
put-capacity key dc c = elim (Bool-cases (c.capacity == 0)) [
  | inl off ↦ rw (off) refl
  | inr on ↦ rw (on) (
      put_entry-capacity (record { key = key; value = dc; size = estimate_decoded_size dc })
        (item_of key c) c)
]

missed_new : (o : Option CacheEntry) (c : BlockCache) → (look_found o c).0 ≡ none → o ≡ none
unfolding look_found
missed_new none c h = refl
missed_new (some e) c h = absurd (cc (h))

missed_on :
    (c : BlockCache)
    → (c.capacity == 0) ≡ false
    → (key : CacheKey) → (look key c).0 ≡ (look_found (item_of key c) c).0
unfolding look
missed_on c on key = rw (on) refl

-- A column that get has just missed is found after it is put, with the
-- same data, if it fits the cache at all.
pub look-put :
    (key : CacheKey) (dc : Decoded) (c : BlockCache)
    → (c.capacity == 0) ≡ false
    → estimate_decoded_size dc ≤ c.capacity
    → (look key c).0 ≡ none
    → (look key (put key dc c)).0 ≡ some dc
unfolding look put look_found
look-put key dc c on small missed =
    let e : CacheEntry = record { key = key; value = dc; size = estimate_decoded_size dc } in
    let new : item_of key c ≡ none =
      missed_new (item_of key c) c (sym (missed_on c on key) ∙ missed) in
    let on' : ((put_entry e none c).capacity == 0) ≡ false =
      ap (λ n. n == 0) (put_entry-capacity e none c) ∙ on in
    rw (on, new, on', put_entry-new e c small) refl
