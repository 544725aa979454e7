-- ===== src/Storage/BlockCache/History.antt =====
-- Any sequence of calls.
use test_db.Prelude.{
  ℕ, ◌≡◌, refl, sym, ap, ◌∙◌, arith, Bool, true, false, Option, none, some, List, [], ◌∷◌, ◌==◌,
  if◌then◌else◌, Bool-cases, inl, inr,
}
use test_db.Storage.BlockCache.{
  CacheKey, key_eq, Decoded, CacheEntry, BlockCache, estimate_decoded_size, new_block_cache,
  entry_of, item_of, put, look_found, look, move_to_front, touch, invalidate, clear,
}
use test_db.Storage.BlockCache.Keys.{key_eq_left, key-entry_of}
use test_db.Storage.BlockCache.Sound.{IsListed, IsSound, item_of-entry_of}
use test_db.Storage.BlockCache.Evict.{entry_of-remove_entry}
use test_db.Storage.BlockCache.Calls.{put-IsSound, look-IsSound, touch-IsSound}
use test_db.Storage.BlockCache.Invalid.{
  invalidate-IsSound, clear-IsSound, new-IsSound, entry_of-invalidate, invalidate-capacity,
}
use test_db.Storage.BlockCache.Reads.{put-Follows, put-capacity, entry_of-same}

pub data Call : Type 0 where
  look_up touch_up : CacheKey → Call
  put_in : CacheKey → Decoded → Call
  drop_segment : ℕ → Call
  drop_all : Call

unfoldable pub step : Call → BlockCache → BlockCache
step (look_up key) c = (look key c).1
step (touch_up key) c = touch key c
step (put_in key dc) c = put key dc c
step (drop_segment s) c = invalidate s c
step drop_all c = clear c

-- The first call of the list is the latest.
unfoldable pub run : List Call → BlockCache → BlockCache
run [] c = c
run (call ∷ calls) c = step call (run calls c)

-- What a key was last put with, unless its segment or everything was dropped since.
unfoldable pub last_put : CacheKey → List Call → Option Decoded
last_put key [] = none
last_put key (look_up k ∷ calls) = last_put key calls
last_put key (touch_up k ∷ calls) = last_put key calls
last_put key (put_in k dc ∷ calls) = if key_eq k key then some dc else last_put key calls
last_put key (drop_segment s ∷ calls) = if key.segment_id == s then none else last_put key calls
last_put key (drop_all ∷ calls) = none

step-IsSound : (call : Call) (c : BlockCache) → IsSound c → IsSound (step call c)
unfolding step
step-IsSound (look_up key) c s = look-IsSound key c s
step-IsSound (touch_up key) c s = touch-IsSound key c s
step-IsSound (put_in key dc) c s = put-IsSound key dc c s
step-IsSound (drop_segment i) c s = invalidate-IsSound i c s
step-IsSound drop_all c s = clear-IsSound c

-- After any calls on a new cache, the list has each key once, the map and the index of the segments
-- have the same keys, and the bytes in use are those of the entries and within the capacity.
pub run-IsSound :
    (calls : List Call) (capacity : ℕ) → IsSound (run calls (new_block_cache capacity))
unfolding run
run-IsSound [] capacity = new-IsSound capacity
run-IsSound (call ∷ calls) capacity =
    step-IsSound call (run calls (new_block_cache capacity)) (run-IsSound calls capacity)

look-order : (key : CacheKey) (c : BlockCache) → (look key c).1.order ≡ c.order
unfolding look look_found
look-order key c = ground arith

look-capacity : (key : CacheKey) (c : BlockCache) → (look key c).1.capacity ≡ c.capacity
unfolding look look_found
look-capacity key c = ground arith

move_to_front-capacity :
    (key : CacheKey) (o : Option CacheEntry) (c : BlockCache)
    → (move_to_front key o c).capacity ≡ c.capacity
unfolding move_to_front
move_to_front-capacity key none c = refl
move_to_front-capacity key (some e) c = refl

step-capacity : (call : Call) (c : BlockCache) → (step call c).capacity ≡ c.capacity
unfolding step touch clear
step-capacity (look_up key) c = look-capacity key c
step-capacity (touch_up key) c = move_to_front-capacity key (item_of key c) c
step-capacity (put_in key dc) c = put-capacity key dc c
step-capacity (drop_segment i) c = invalidate-capacity i c
step-capacity drop_all c = refl

run-capacity :
    (calls : List Call) (capacity : ℕ) → (run calls (new_block_cache capacity)).capacity ≡ capacity
unfolding run new_block_cache
run-capacity [] capacity = refl
run-capacity (call ∷ calls) capacity =
    step-capacity call (run calls (new_block_cache capacity)) ∙ run-capacity calls capacity

entry_of-move :
    (j key : CacheKey) (o : Option CacheEntry) (c : BlockCache)
    → entry_of key c.order ≡ o
    → IsListed c
    → entry_of j (move_to_front key o c).order ≡ entry_of j c.order
unfolding move_to_front entry_of
entry_of-move j key none c found l = refl
entry_of-move j key (some e) c found l = ground (
  arith,
  key-entry_of key c.order e found,
  entry_of-remove_entry j key c.order l.distinct,
  key_eq_left e.key key j,
  entry_of-same key j c.order,
  found,
)

-- What the list has under a key is what was put last.
abbrev Keeps : CacheKey → Option Decoded → List CacheEntry → Type 0
Keeps key o es = (x : CacheEntry) → entry_of key es ≡ some x → o ≡ some x.value

put_keeps :
    (b : Bool) (e x : CacheEntry) (o : Option CacheEntry) (last : Option Decoded)
    → (if b then some e else o) ≡ some x
    → (o ≡ some x → last ≡ some x.value)
    → (if b then some e.value else last) ≡ some x.value
put_keeps true e x o last h before = cc (h)
put_keeps false e x o last h before = before h

drop_keeps :
    (b : Bool) (x : CacheEntry) (o : Option CacheEntry) (last : Option Decoded)
    → (if b then none else o) ≡ some x
    → (o ≡ some x → last ≡ some x.value)
    → (if b then none else last) ≡ some x.value
drop_keeps true x o last h before = absurd (cc (h))
drop_keeps false x o last h before = before h

step-Keeps :
    (key : CacheKey) (call : Call) (calls : List Call) (c : BlockCache)
    → IsSound c
    → (c.capacity == 0) ≡ false
    → Keeps key (last_put key calls) c.order
    → Keeps key (last_put key (call ∷ calls)) (step call c).order
unfolding last_put step entry_of touch clear
step-Keeps key (look_up k) calls c s on before x h =
    before x (sym (ap (entry_of key) (look-order k c)) ∙ h)
step-Keeps key (touch_up k) calls c s on before x h =
    let found = sym (item_of-entry_of k c s.lists) in
    before x (sym (entry_of-move key k (item_of k c) c found s.lists) ∙ h)
step-Keeps key (put_in k dc) calls c s on before x h =
    put_keeps (key_eq k key) (record { key = k; value = dc; size = estimate_decoded_size dc }) x
      (entry_of key c.order) (last_put key calls) (put-Follows key k dc c s on x h) (before x)
step-Keeps key (drop_segment i) calls c s on before x h =
    drop_keeps (key.segment_id == i) x (entry_of key c.order) (last_put key calls)
      (sym (entry_of-invalidate key i c s on) ∙ h) (before x)
step-Keeps key drop_all calls c s on before x h = absurd (cc (h))

run-Keeps :
    (key : CacheKey) (calls : List Call) (capacity : ℕ)
    → (capacity == 0) ≡ false
    → Keeps key (last_put key calls) (run calls (new_block_cache capacity)).order
unfolding run new_block_cache entry_of
run-Keeps key [] capacity on x h = absurd (cc (h))
run-Keeps key (call ∷ calls) capacity on x h =
    step-Keeps key call calls (run calls (new_block_cache capacity)) (run-IsSound calls capacity)
      (ap (λ n. n == 0) (run-capacity calls capacity) ∙ on) (run-Keeps key calls capacity on) x h

found_last :
    (o : Option CacheEntry) (c : BlockCache) (dc : Decoded) (last : Option Decoded)
    → (look_found o c).0 ≡ some dc
    → ((x : CacheEntry) → o ≡ some x → last ≡ some x.value)
    → last ≡ some dc
unfolding look_found
found_last none c dc last h keeps = absurd (cc (h))
found_last (some e) c dc last h keeps = keeps e refl ∙ h

look_hits :
    (key : CacheKey) (c : BlockCache) (dc : Decoded)
    → (look key c).0 ≡ some dc
    → ((c.capacity == 0) ≡ false) × ((look_found (item_of key c) c).0 ≡ some dc)
unfolding look
look_hits key c dc h = elim (Bool-cases (c.capacity == 0)) [
  | inl off ↦ absurd (ground (arith, h, off))
  | inr on ↦ (on, ground (arith, h, on))
]

-- After any calls on a new cache, the data that get gives for a key is what the key was last put
-- with, and since then neither its segment was invalidated nor the cache cleared.
pub look-run :
    (key : CacheKey) (calls : List Call) (capacity : ℕ) (dc : Decoded)
    → (look key (run calls (new_block_cache capacity))).0 ≡ some dc
    → last_put key calls ≡ some dc
look-run key calls capacity dc h =
    let c = run calls (new_block_cache capacity) in
    let hit = look_hits key c dc h in
    let on : (capacity == 0) ≡ false =
      ap (λ n. n == 0) (sym (run-capacity calls capacity)) ∙ hit.0 in
    found_last (item_of key c) c dc (last_put key calls) hit.1 (λ x there.
      run-Keeps key calls capacity on x
        (sym (item_of-entry_of key c (run-IsSound calls capacity).lists) ∙ there))
