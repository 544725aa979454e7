-- ===== src/Storage/BlockCache/Evict.antt =====
-- Eviction: it makes room, and what stays is unchanged.
use mathlib.Core.Path.{subst}
use test_db.Prelude.{
  ℕ, zero, suc, ◌+◌, ◌≤◌, ◌≡◌, refl, sym, ap, ◌∙◌, arith, true, false, ◌⊎◌, none, some, List, [],
  ◌∷◌, ltb, length, if◌then◌else◌, Bool-cases, inl, inr,
}
use test_db.Storage.BlockCache.{
  CacheKey, key_eq, CacheEntry, BlockCache, entry_of, remove_entry, drop_entry, oldest, drop_oldest,
  evict,
}
use test_db.Storage.BlockCache.Keys.{
  key_eq_sym, key_eq_left, keys, Distinct, total, has_eq, entry_of-oldest, entry_of-none,
}
use test_db.Storage.BlockCache.Sound.{IsSound, drop_oldest-IsSound}

length-remove_entry :
    (k : CacheKey) (es : List CacheEntry) (e : CacheEntry)
    → entry_of k es ≡ some e
    → suc (length (remove_entry k es)) ≡ length es
unfolding entry_of remove_entry
length-remove_entry k [] e h = absurd (cc (h))
length-remove_entry k (f ∷ es) e h = ground (arith, h, length-remove_entry k es e)

pub entry_of-remove_entry :
    (j k : CacheKey) (es : List CacheEntry)
    → Distinct (keys es)
    → entry_of j (remove_entry k es) ≡ (if key_eq k j then none else entry_of j es)
unfolding entry_of remove_entry
entry_of-remove_entry j k [] d = ground arith
entry_of-remove_entry j k (f ∷ es) d = ground (
  arith,
  entry_of-remove_entry j k es d.1,
  entry_of-none j es,
  has_eq f.key j (keys es),
  d.0,
  key_eq_left f.key k j,
  key_eq_sym f.key k,
  key_eq_left k f.key j,
)

drop_oldest-capacity :
    (es : List CacheEntry) (c : BlockCache) → (drop_oldest es c).capacity ≡ c.capacity
unfolding drop_oldest drop_entry
drop_oldest-capacity [] c = refl
drop_oldest-capacity (e ∷ es) c = refl

pub evict-capacity : (fuel size : ℕ) (c : BlockCache) → (evict fuel size c).capacity ≡ c.capacity
unfolding evict
evict-capacity zero size c = refl
evict-capacity (suc fuel) size c = elim (Bool-cases (ltb c.capacity (c.used + size))) [
  | inl full ↦
      rw (full) (evict-capacity fuel size (drop_oldest c.order c) ∙ drop_oldest-capacity c.order c)
  | inr fits ↦ rw (fits) refl
]

length-drop_oldest :
    (es : List CacheEntry) (c : BlockCache)
    → c.order ≡ es
    → IsSound c
    → c.used ≡ 0 ⊎ (suc (length (drop_oldest es c).order) ≡ length c.order)
unfolding drop_oldest drop_entry total
length-drop_oldest [] c e s = inl (s.lists.sized ∙ ap total e)
length-drop_oldest (f ∷ es) c e s = inr (
    length-remove_entry (oldest f es).key c.order (oldest f es) (
      ap (λ l. entry_of (oldest f es).key l) e
      ∙ entry_of-oldest f es (subst (λ l. Distinct (keys l)) e s.lists.distinct)))

empty_unused : (es : List CacheEntry) → length es ≤ 0 → total es ≡ 0
unfolding total
empty_unused [] h = refl
empty_unused (e ∷ es) h = absurd (omega (arith, h))

-- One round for each entry is enough to make room for what fits the cache at all.
pub evict-fits :
    (fuel size : ℕ) (c : BlockCache)
    → IsSound c
    → length c.order ≤ fuel
    → size ≤ c.capacity
    → (evict fuel size c).used + size ≤ c.capacity
unfolding evict
evict-fits zero size c s enough small =
    omega (arith, empty_unused c.order enough, s.lists.sized, small)
evict-fits (suc fuel) size c s enough small = elim (Bool-cases (ltb c.capacity (c.used + size))) [
  | inl full ↦ rw (full) (elim (length-drop_oldest c.order c refl s) [
    | inl unused ↦ absurd (ground (arith, full, unused, small))
    | inr fewer ↦
        let same = drop_oldest-capacity c.order c in
        omega (
          arith,
          same,
          evict-fits fuel size (drop_oldest c.order c) (drop_oldest-IsSound c.order c refl s)
              (omega (arith, fewer, enough)) (omega (arith, same, small)),
        )
  ])
  | inr fits ↦ rw (fits) (ground (arith, fits))
]

drop_oldest-kept :
    (j : CacheKey) (x : CacheEntry) (es : List CacheEntry) (c : BlockCache)
    → IsSound c
    → entry_of j (drop_oldest es c).order ≡ some x
    → entry_of j c.order ≡ some x
unfolding drop_oldest drop_entry
drop_oldest-kept j x [] c s h = h
drop_oldest-kept j x (e ∷ es) c s h =
    ground (arith, h, entry_of-remove_entry j (oldest e es).key c.order s.lists.distinct)

evict_again :
    (fuel size : ℕ) (j : CacheKey) (x : CacheEntry) (c : BlockCache)
    → ltb c.capacity (c.used + size) ≡ true
    → entry_of j (evict (suc fuel) size c).order ≡ some x
    → entry_of j (evict fuel size (drop_oldest c.order c)).order ≡ some x
unfolding evict
evict_again fuel size j x c full h =
    sym (ap (λ b. entry_of j (if b then evict fuel size (drop_oldest c.order c) else c).order) full)
    ∙ h

evict_done :
    (fuel size : ℕ) (j : CacheKey) (x : CacheEntry) (c : BlockCache)
    → ltb c.capacity (c.used + size) ≡ false
    → entry_of j (evict (suc fuel) size c).order ≡ some x
    → entry_of j c.order ≡ some x
unfolding evict
evict_done fuel size j x c fits h =
    sym (ap (λ b. entry_of j (if b then evict fuel size (drop_oldest c.order c) else c).order) fits)
    ∙ h

-- What the loop leaves was there before.
pub evict-kept :
    (fuel size : ℕ) (j : CacheKey) (x : CacheEntry) (c : BlockCache)
    → IsSound c
    → entry_of j (evict fuel size c).order ≡ some x
    → entry_of j c.order ≡ some x
unfolding evict
evict-kept zero size j x c s h = h
evict-kept (suc fuel) size j x c s h = elim (Bool-cases (ltb c.capacity (c.used + size))) [
  | inl full ↦ drop_oldest-kept j x c.order c s (
      evict-kept fuel size j x (drop_oldest c.order c) (drop_oldest-IsSound c.order c refl s)
        (evict_again fuel size j x c full h))
  | inr fits ↦ evict_done fuel size j x c fits h
]
