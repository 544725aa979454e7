-- ===== src/Storage/BlockCache/Keys.antt =====
-- Lists of cache keys: what they have, and that they have it once.
use mathlib.Core.Path.{subst}
use test_db.Prelude.{
  ℕ, ◌+◌, ◌≡◌, refl, ap, ◌∙◌, arith, Bool, true, false, not, ◌&&◌, ◌||◌, ◌⊎◌, Option, none, some,
  List, [], ◌∷◌, ◌++◌, if◌then◌else◌, Bool-cases, inl, inr,
}
use test_db.Storage.BlockCache.{
  CacheKey, key_eq, CacheEntry, has, delete_item, entry_of, remove_entry, under_last, last_to_front,
  swap_remove, oldest,
}

pub key_eq_refl : (a : CacheKey) → key_eq a a ≡ true
key_eq_refl a = ground arith

pub key_eq_sym : (a b : CacheKey) → key_eq a b ≡ key_eq b a
key_eq_sym a b = ground arith

-- Equal keys have the same tests.
pub key_eq_left : (a b c : CacheKey) → key_eq a b ≡ true → key_eq a c ≡ key_eq b c
key_eq_left a b c h = ground (arith, h)

pub key_eq_segment : (a b : CacheKey) → key_eq a b ≡ true → a.segment_id ≡ b.segment_id
key_eq_segment a b h = ground (arith, h)

abbrev pub keys : List CacheEntry → List CacheKey
keys [] = []
keys (e ∷ es) = e.key ∷ keys es

abbrev pub Distinct : List CacheKey → Type 0
Distinct [] = Unit
Distinct (k ∷ ks) = (has k ks ≡ false) × Distinct ks

unfoldable pub total : List CacheEntry → ℕ
total [] = 0
total (e ∷ es) = e.size + total es

pub has_eq : (a b : CacheKey) (ks : List CacheKey) → key_eq a b ≡ true → has a ks ≡ has b ks
unfolding has
has_eq a b [] h = refl
has_eq a b (k ∷ ks) h =
    ground (arith, has_eq a b ks h, key_eq_left a b k h, key_eq_sym a k, key_eq_sym b k)

pub has-append : (j : CacheKey) (xs ys : List CacheKey) → has j (xs ++ ys) ≡ has j xs || has j ys
unfolding has
has-append j [] ys = refl
has-append j (x ∷ xs) ys = ground (arith, has-append j xs ys)

pub has-delete_item :
    (j k : CacheKey) (ks : List CacheKey) → has j (delete_item k ks) ≡ has j ks && not (key_eq k j)
unfolding has delete_item
has-delete_item j k [] = refl
has-delete_item j k (i ∷ ks) =
    ground (arith, has-delete_item j k ks, key_eq_left i k j, key_eq_sym k i, key_eq_left k i j)

pub has-remove_entry :
    (j k : CacheKey) (es : List CacheEntry)
    → Distinct (keys es)
    → has j (keys (remove_entry k es)) ≡ has j (keys es) && not (key_eq k j)
unfolding has remove_entry
has-remove_entry j k [] d = refl
has-remove_entry j k (e ∷ es) d = ground (
  arith,
  has-remove_entry j k es d.1,
  key_eq_left e.key k j,
  has_eq e.key j (keys es),
  d.0,
  key_eq_sym e.key k,
  key_eq_left k e.key j,
)

pub Distinct-remove_entry :
    (k : CacheKey) (es : List CacheEntry) → Distinct (keys es) → Distinct (keys (remove_entry k es))
unfolding remove_entry
Distinct-remove_entry k [] d = tt
Distinct-remove_entry k (e ∷ es) d = elim (Bool-cases (key_eq e.key k)) [
  | inl same ↦ rw (same) (d.1)
  | inr other ↦
      rw (other)
        (ground (arith, has-remove_entry e.key k es d.1, d.0), Distinct-remove_entry k es d.1)
]

pub has-entry_of :
    (k : CacheKey) (es : List CacheEntry) (e : CacheEntry)
    → entry_of k es ≡ some e
    → has k (keys es) ≡ true
unfolding has entry_of
has-entry_of k [] e h = absurd (cc (h))
has-entry_of k (f ∷ es) e h = ground (arith, h, has-entry_of k es e)

-- Which entry the test of a first one gives.
first_or_rest :
    (b : Bool) (f e : CacheEntry) (o : Option CacheEntry)
    → (if b then some f else o) ≡ some e
    → ((b ≡ true) × (f ≡ e)) ⊎ ((b ≡ false) × (o ≡ some e))
first_or_rest true f e o h = inl (refl, cc (h))
first_or_rest false f e o h = inr (refl, h)

pub key-entry_of :
    (k : CacheKey) (es : List CacheEntry) (e : CacheEntry)
    → entry_of k es ≡ some e
    → key_eq e.key k ≡ true
unfolding entry_of
key-entry_of k [] e h = absurd (cc (h))
key-entry_of k (f ∷ es) e h = elim (first_or_rest (key_eq f.key k) f e (entry_of k es) h) [
  | inl (same, f=e) ↦ subst (λ (x : CacheEntry). key_eq x.key k ≡ true) f=e same
  | inr (other, h') ↦ key-entry_of k es e h'
]

pub total-remove_entry :
    (k : CacheKey) (es : List CacheEntry) (e : CacheEntry)
    → entry_of k es ≡ some e
    → total (remove_entry k es) + e.size ≡ total es
unfolding entry_of remove_entry total
total-remove_entry k [] e h = absurd (cc (h))
total-remove_entry k (f ∷ es) e h = elim (first_or_rest (key_eq f.key k) f e (entry_of k es) h) [
  | inl (same, f=e) ↦ rw (same) (omega (arith, ap (λ (x : CacheEntry). x.size) f=e))
  | inr (other, h') ↦ rw (other) (omega (arith, total-remove_entry k es e h'))
]

pub entry_of-has :
    (k : CacheKey) (es : List CacheEntry)
    → has k (keys es) ≡ true
    → (e : CacheEntry) × (entry_of k es ≡ some e)
unfolding has entry_of
entry_of-has k [] h = absurd (cc (h))
entry_of-has k (f ∷ es) h = elim (Bool-cases (key_eq f.key k)) [
  | inl same ↦ rw (same) (f, refl)
  | inr other ↦ rw (other) (entry_of-has k es (ground (arith, h, other)))
]

pub entry_of-none :
    (k : CacheKey) (es : List CacheEntry) → has k (keys es) ≡ false → entry_of k es ≡ none
unfolding has entry_of
entry_of-none k [] h = refl
entry_of-none k (f ∷ es) h = ground (arith, h, entry_of-none k es)

abbrev pub is_there : Option CacheEntry → Bool
is_there none = false
is_there (some e) = true

pub has-is_there :
    (k : CacheKey) (es : List CacheEntry) → has k (keys es) ≡ is_there (entry_of k es)
unfolding has entry_of
has-is_there k [] = refl
has-is_there k (f ∷ es) = ground (arith, has-is_there k es)

has-oldest : (e : CacheEntry) (es : List CacheEntry) → has (oldest e es).key (keys (e ∷ es)) ≡ true
unfolding has oldest
has-oldest e [] = ground (arith, key_eq_refl e.key)
has-oldest e (f ∷ es) = ground (arith, has-oldest f es)

-- The entry at the back is found under its key.
pub entry_of-oldest :
    (e : CacheEntry) (es : List CacheEntry)
    → Distinct (keys (e ∷ es))
    → entry_of (oldest e es).key (e ∷ es) ≡ some (oldest e es)
unfolding entry_of oldest
entry_of-oldest e [] d = ground (arith, key_eq_refl e.key)
entry_of-oldest e (f ∷ es) d = ground (
  arith,
  entry_of-oldest f es d.1,
  has-oldest f es,
  d.0,
  has_eq e.key (oldest f es).key (keys (f ∷ es)),
)

has-under_last : (j k : CacheKey) (ks : List CacheKey) → has j (under_last k ks) ≡ has j (k ∷ ks)
unfolding has under_last
has-under_last j k [] = refl
has-under_last j k (l ∷ ks) = ground arith

Distinct-under_last :
    (k : CacheKey) (ks : List CacheKey)
    → has k ks ≡ false
    → Distinct ks
    → Distinct (under_last k ks)
unfolding has under_last
Distinct-under_last k [] h d = (refl, tt)
Distinct-under_last k (l ∷ ks) h d =
    (ground (arith, h, d.0, key_eq_sym k l), (ground (arith, h), d.1))

has-last_to_front : (j : CacheKey) (ks : List CacheKey) → has j (last_to_front ks) ≡ has j ks
unfolding has last_to_front
has-last_to_front j [] = refl
has-last_to_front j (k ∷ ks) =
    has-under_last j k (last_to_front ks) ∙ ground (arith, has-last_to_front j ks)

pub has-swap_remove :
    (j k : CacheKey) (ks : List CacheKey)
    → Distinct ks
    → has j (swap_remove k ks) ≡ has j ks && not (key_eq k j)
unfolding has swap_remove
has-swap_remove j k [] d = refl
has-swap_remove j k (i ∷ ks) d = ground (
  arith,
  has-swap_remove j k ks d.1,
  has-last_to_front j ks,
  key_eq_left i k j,
  key_eq_sym i k,
  has_eq i j ks,
  d.0,
  key_eq_left k i j,
)

Distinct-last_to_front : (ks : List CacheKey) → Distinct ks → Distinct (last_to_front ks)
unfolding last_to_front
Distinct-last_to_front [] d = tt
Distinct-last_to_front (k ∷ ks) d =
    Distinct-under_last k (last_to_front ks) (has-last_to_front k ks ∙ d.0)
      (Distinct-last_to_front ks d.1)

pub Distinct-swap_remove :
    (k : CacheKey) (ks : List CacheKey) → Distinct ks → Distinct (swap_remove k ks)
unfolding swap_remove
Distinct-swap_remove k [] d = tt
Distinct-swap_remove k (i ∷ ks) d = elim (Bool-cases (key_eq i k)) [
  | inl same ↦ rw (same) (Distinct-last_to_front ks d.1)
  | inr other ↦
      rw (other) (ground (arith, has-swap_remove i k ks d.1, d.0), Distinct-swap_remove k ks d.1)
]
