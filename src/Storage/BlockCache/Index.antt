-- ===== src/Storage/BlockCache/Index.antt =====
-- segIndex: which keys a segment has in the cache.
use test_db.Prelude.{
  ℕ, ◌≡◌, refl, sym, ◌∙◌, arith, true, false, not, ◌&&◌, List, [], ◌∷◌, ◌++◌, ◌==◌, if◌then◌else◌,
  Bool-cases, inl, inr,
}
use test_db.Storage.BlockCache.{
  CacheKey, key_eq, has, seg_keys, delete_seg, set_seg, swap_remove, store_seg, add_to_seg_index,
  remove_from_seg_index,
}
use test_db.Storage.BlockCache.Keys.{
  key_eq_sym, key_eq_segment, Distinct, has-append, has-swap_remove, Distinct-swap_remove,
}

pub seg_keys-delete_seg :
    (s t : ℕ) (idx : List (ℕ × List CacheKey))
    → seg_keys t (delete_seg s idx) ≡ (if s == t then [] else seg_keys t idx)
unfolding seg_keys delete_seg
seg_keys-delete_seg s t [] = ground arith
seg_keys-delete_seg s t ((i, ks) ∷ idx) = ground (arith, seg_keys-delete_seg s t idx)

pub seg_keys-set_seg :
    (s t : ℕ) (ks : List CacheKey) (idx : List (ℕ × List CacheKey))
    → seg_keys t (set_seg s ks idx) ≡ (if s == t then ks else seg_keys t idx)
unfolding seg_keys
seg_keys-set_seg s t ks idx = ground (arith, seg_keys-delete_seg s t idx)

seg_keys-store_seg :
    (s t : ℕ) (ks : List CacheKey) (idx : List (ℕ × List CacheKey))
    → seg_keys t (store_seg s ks idx) ≡ (if s == t then ks else seg_keys t idx)
unfolding store_seg
seg_keys-store_seg s t [] idx = seg_keys-delete_seg s t idx
seg_keys-store_seg s t (k ∷ ks) idx = seg_keys-set_seg s t (k ∷ ks) idx

-- The index has the keys `ks`, each once and under its own segment.
pub record IsIndexed (idx : List (ℕ × List CacheKey)) (ks : List CacheKey) : Type 0 where
  pub indexed : (k : CacheKey) → has k (seg_keys k.segment_id idx) ≡ has k ks
  pub once : (s : ℕ) → Distinct (seg_keys s idx)
  pub own : (s : ℕ) (k : CacheKey) → has k (seg_keys s idx) ≡ true → k.segment_id ≡ s

pub IsIndexed-same :
    (idx : List (ℕ × List CacheKey)) (ks ks' : List CacheKey)
    → ((j : CacheKey) → has j ks' ≡ has j ks)
    → IsIndexed idx ks
    → IsIndexed idx ks'
IsIndexed-same idx ks ks' same h = record {
  indexed = λ k. h.indexed k ∙ sym (same k);
  once = h.once;
  own = h.own;
}

pub IsIndexed-empty : IsIndexed [] []
unfolding seg_keys has
IsIndexed-empty = record { indexed = λ k. refl; once = λ s. tt; own = λ s k h. absurd (cc (h)) }

pub remove-IsIndexed :
    (key : CacheKey) (idx : List (ℕ × List CacheKey)) (ks ks' : List CacheKey)
    → ((j : CacheKey) → has j ks' ≡ has j ks && not (key_eq key j))
    → IsIndexed idx ks
    → IsIndexed (remove_from_seg_index key idx) ks'
unfolding remove_from_seg_index
remove-IsIndexed key idx ks ks' gone h =
    let s = key.segment_id in
    let left = swap_remove key (seg_keys s idx) in
    record {
      indexed = λ k. ground (
        arith,
        seg_keys-store_seg s k.segment_id left idx,
        gone k,
        h.indexed k,
        has-swap_remove k key (seg_keys s idx) (h.once s),
        key_eq_segment key k,
      );
      once = λ t. elim (Bool-cases (s == t)) [
        | inl same ↦
            rw (seg_keys-store_seg s t left idx, same)
              (Distinct-swap_remove key (seg_keys s idx) (h.once s))
        | inr other ↦ rw (seg_keys-store_seg s t left idx, other) (h.once t)
      ];
      own = λ t k found. ground (
        arith,
        seg_keys-store_seg s t left idx,
        found,
        h.own t k,
        h.own s k,
        has-swap_remove k key (seg_keys s idx) (h.once s),
      );
    }

Distinct-append_one :
    (k : CacheKey) (ks : List CacheKey) → has k ks ≡ false → Distinct ks → Distinct (ks ++ k ∷ [])
unfolding has
Distinct-append_one k [] h d = (refl, tt)
Distinct-append_one k (i ∷ ks) h d = (
  ground (arith, has-append i ks (k ∷ []), d.0, h, key_eq_sym i k),
  Distinct-append_one k ks (ground (arith, h)) d.1,
)

pub add-IsIndexed :
    (key : CacheKey) (idx : List (ℕ × List CacheKey)) (ks : List CacheKey)
    → has key ks ≡ false
    → IsIndexed idx ks
    → IsIndexed (add_to_seg_index key idx) (key ∷ ks)
unfolding add_to_seg_index has
add-IsIndexed key idx ks new h =
    let s = key.segment_id in
    let more = seg_keys s idx ++ key ∷ [] in
    record {
      indexed = λ k. ground (
        arith,
        seg_keys-set_seg s k.segment_id more idx,
        h.indexed k,
        has-append k (seg_keys s idx) (key ∷ []),
        key_eq_segment key k,
      );
      once = λ t. elim (Bool-cases (s == t)) [
        | inl same ↦
            rw (seg_keys-set_seg s t more idx, same)
              (Distinct-append_one key (seg_keys s idx) (h.indexed key ∙ new) (h.once s))
        | inr other ↦ rw (seg_keys-set_seg s t more idx, other) (h.once t)
      ];
      own = λ t k found. ground (
        arith,
        seg_keys-set_seg s t more idx,
        found,
        h.own t k,
        h.own s k,
        has-append k (seg_keys s idx) (key ∷ []),
        key_eq_segment key k,
      );
    }

-- A segment that leaves takes its keys with it.
pub delete_seg-IsIndexed :
    (s : ℕ) (idx : List (ℕ × List CacheKey)) (ks ks' : List CacheKey)
    → ((j : CacheKey) → has j ks' ≡ has j ks && not (has j (seg_keys s idx)))
    → IsIndexed idx ks
    → IsIndexed (delete_seg s idx) ks'
unfolding has
delete_seg-IsIndexed s idx ks ks' gone h = record {
  indexed =
      λ k. ground (arith, seg_keys-delete_seg s k.segment_id idx, gone k, h.indexed k, h.own s k);
  once = λ t. elim (Bool-cases (s == t)) [
    | inl same ↦ rw (seg_keys-delete_seg s t idx, same) tt
    | inr other ↦ rw (seg_keys-delete_seg s t idx, other) (h.once t)
  ];
  own = λ t k found. ground (arith, seg_keys-delete_seg s t idx, found, h.own t k);
}
