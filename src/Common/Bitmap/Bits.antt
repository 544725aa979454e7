-- ===== src/Common/Bitmap/Bits.antt =====
-- Changing one bit of a bitmap.
use mathlib.Core.Path.{subst}
use test_db.Prelude.{
  ℕ, zero, suc, ◌*◌, ◌/◌, ◌%◌, ◌<◌, ◌≤◌, ◌≡◌, refl, sym, ap, ◌∙◌, arith, Bool, true, false, not,
  ◌&&◌, Option, none, some, List, [], ◌∷◌, leb, ltb, ◌==◌, if◌then◌else◌, length, get_elem?, set,
  All, Bool-cases, Option-cases, inl, inr,
}
use test_db.Common.Bitmap.{
  Word, Bitmap, bit_at, change_bit, change, set_bit, clear_bit, flip_bit, get_bit,
}

-- As many words as the bits need, of 64 bits each.
pub record IsWellFormed (b : Bitmap) : Type 0 where
  pub enough : b.len ≤ length b.words * 64
  pub full : All (λ (w : Word). length w ≡ 64) b.words

length-change_bit : (f : Bool → Bool) (i : ℕ) (w : Word) → length (change_bit f i w) ≡ length w
unfolding change_bit
length-change_bit f i [] = refl
length-change_bit f zero (x ∷ w) = refl
length-change_bit f (suc i) (x ∷ w) = ap suc (length-change_bit f i w)

bit_at-change_bit :
    (f : Bool → Bool) (i j : ℕ) (w : Word)
    → i < length w
    → bit_at j (change_bit f i w) ≡ (if i == j then f (bit_at j w) else bit_at j w)
unfolding bit_at change_bit
bit_at-change_bit f i j [] h = absurd (omega (arith, h))
bit_at-change_bit f zero zero (x ∷ w) h = refl
bit_at-change_bit f zero (suc j) (x ∷ w) h = ground arith
bit_at-change_bit f (suc i) zero (x ∷ w) h = ground arith
bit_at-change_bit f (suc i) (suc j) (x ∷ w) h =
    ground (arith, bit_at-change_bit f i j w (omega (arith, h)))

pub word_there :
    (ws : List Word) (k : ℕ)
    → All (λ (w : Word). length w ≡ 64) ws
    → k < length ws
    → (w : Word) × (get_elem? ws k ≡ some w) × (length w ≡ 64)
word_there [] k full h = absurd (omega (arith, h))
word_there (w ∷ ws) zero full h = (w, refl, full.0)
word_there (w ∷ ws) (suc k) full h = word_there ws k full.1 (omega (arith, h))

get_elem?-set :
    (ws : List Word) (k l : ℕ) (w : Word)
    → k < length ws
    → get_elem? (set ws k w) l ≡ (if k == l then some w else get_elem? ws l)
get_elem?-set [] k l w h = absurd (omega (arith, h))
get_elem?-set (x ∷ ws) zero zero w h = refl
get_elem?-set (x ∷ ws) zero (suc l) w h = ground arith
get_elem?-set (x ∷ ws) (suc k) zero w h = ground arith
get_elem?-set (x ∷ ws) (suc k) (suc l) w h =
    ground (arith, get_elem?-set ws k l w (omega (arith, h)))

length-set_word : (ws : List Word) (k : ℕ) (w : Word) → length (set ws k w) ≡ length ws
length-set_word [] k w = refl
length-set_word (x ∷ ws) zero w = refl
length-set_word (x ∷ ws) (suc k) w = ap suc (length-set_word ws k w)

full-set :
    (ws : List Word) (k : ℕ) (w : Word)
    → All (λ (w : Word). length w ≡ 64) ws
    → length w ≡ 64
    → All (λ (w : Word). length w ≡ 64) (set ws k w)
full-set [] k w h own = tt
full-set (x ∷ ws) zero w h own = (own, h.1)
full-set (x ∷ ws) (suc k) w h own = (h.0, full-set ws k w h.1 own)

-- The bit in a word, as Get reads it.
abbrev pub read : ℕ → Option Word → Option Bool
read j none = none
read j (some w) = some (bit_at (j % 64) w)

abbrev mapped : (Bool → Bool) → Option Bool → Option Bool
mapped f none = none
mapped f (some x) = some (f x)

pub get_bit-read :
    (j : ℕ) (b : Bitmap)
    → get_bit j b ≡ (if leb b.len j then some false else read j (get_elem? b.words (j / 64)))
unfolding get_bit
get_bit-read j b = elim (Option-cases (get_elem? b.words (j / 64))) [
  | inl missing ↦ rw (missing) refl
  | inr (w, found) ↦ rw (found) refl
]

read-set :
    (f : Bool → Bool) (i j : ℕ) (ws : List Word) (w : Word)
    → get_elem? ws (i / 64) ≡ some w
    → length w ≡ 64
    → i / 64 < length ws
    → read j (get_elem? (set ws (i / 64) (change_bit f (i % 64) w)) (j / 64)) ≡ (
        if i == j
        then mapped f (read j (get_elem? ws (j / 64)))
        else read j (get_elem? ws (j / 64)))
read-set f i j ws w found own there =
    ap (read j) (get_elem?-set ws (i / 64) (j / 64) (change_bit f (i % 64) w) there)
    ∙ elim (Bool-cases (i / 64 == j / 64)) [
      | inl same ↦
          let here : get_elem? ws (j / 64) ≡ some w =
            ap (get_elem? ws) (ground (arith, same)) ∙ found in
          rw (same, here)
            (ap (λ x. some x) (bit_at-change_bit f (i % 64) (j % 64) w (omega (arith, own)))
              ∙ ground (arith, same))
      | inr other ↦ let differ : (i == j) ≡ false = ground (arith, other) in rw (other, differ) refl
    ]

-- A changed bitmap, read at a bit.
record IsChanged (f : Bool → Bool) (i j : ℕ) (b b' : Bitmap) : Type 0 where
  well_formed : IsWellFormed b'
  same_len : b'.len ≡ b.len
  bits : get_bit j b' ≡ (if (i == j) && ltb i b.len then mapped f (get_bit j b) else get_bit j b)

change-in_range :
    (f : Bool → Bool) (i : ℕ) (b : Bitmap) (w : Word)
    → leb b.len i ≡ false
    → get_elem? b.words (i / 64) ≡ some w
    → change f i b ≡ some (record b { words = set b.words (i / 64) (change_bit f (i % 64) w) })
unfolding change
change-in_range f i b w inside found = rw (inside, found) refl

settle :
    (f : Bool → Bool) (i j n : ℕ) (o : Option Bool)
    → leb n i ≡ false
    → (if leb n j then some false else if i == j then mapped f o else o) ≡ (
        if (i == j) && ltb i n
        then mapped f (if leb n j then some false else o)
        else if leb n j
        then some false
        else o)
settle f i j n o h = ground (arith, h)

pub in_words : (i len n : ℕ) → leb len i ≡ false → len ≤ n * 64 → i / 64 < n
in_words i len n h k = let below : i < len = ground (arith, h) in omega (arith, below, k)

change-IsChanged :
    (f : Bool → Bool) (i j : ℕ) (b : Bitmap)
    → IsWellFormed b
    → (b' : Bitmap) × (change f i b ≡ some b') × IsChanged f i j b b'
unfolding change
change-IsChanged f i j b ok = elim (Bool-cases (leb b.len i)) [
  | inl beyond ↦
      let out : ltb i b.len ≡ false = ground (arith, beyond) in
      (
        b,
        rw (beyond) refl,
        record { well_formed = ok; same_len = refl; bits = ground (arith, out) },
      )
  | inr inside ↦
      let there : i / 64 < length b.words = in_words i b.len (length b.words) inside ok.enough in
      let (w, found, own) = word_there b.words (i / 64) ok.full there in
      let b' : Bitmap = record b { words = set b.words (i / 64) (change_bit f (i % 64) w) } in
      (
        b',
        change-in_range f i b w inside found,
        record {
          well_formed = record {
            enough =
                subst (λ n. b.len ≤ n * 64) (sym (length-set_word b.words (i / 64) _)) ok.enough;
            full = full-set b.words (i / 64) _ ok.full (length-change_bit f (i % 64) w ∙ own);
          };
          same_len = refl;
          bits =
              get_bit-read j b'
              ∙ ap (λ o. if leb b.len j then some false else o)
                  (read-set f i j b.words w found own there)
              ∙ settle f i j b.len (read j (get_elem? b.words (j / 64))) inside
              ∙ sym
                  (ap (λ g. if (i == j) && ltb i b.len then mapped f g else g) (get_bit-read j b));
        },
      )
]

get_bit-some : (j : ℕ) (b : Bitmap) → IsWellFormed b → (x : Bool) × (get_bit j b ≡ some x)
get_bit-some j b ok = elim (Bool-cases (leb b.len j)) [
  | inl beyond ↦ (
    false,
    get_bit-read j b
        ∙ ap (λ c. if c then some false else read j (get_elem? b.words (j / 64))) beyond,
  )
  | inr inside ↦
      let there = in_words j b.len (length b.words) inside ok.enough in
      let (w, found, own) = word_there b.words (j / 64) ok.full there in
      (
        bit_at (j % 64) w,
        get_bit-read j b
            ∙ ap (λ c. if c then some false else read j (get_elem? b.words (j / 64))) inside
            ∙ ap (read j) found,
      )
]

-- What a call on bit i makes of bit j.
abbrev pub Changes : (Bool → Bool) → ℕ → ℕ → Bool → Bitmap → Option Bitmap → Type 0
Changes f i j x b o =
    (b' : Bitmap) × (o ≡ some b')
    × IsWellFormed b'
    × (b'.len ≡ b.len)
    × (get_bit j b' ≡ some (if (i == j) && ltb i b.len then f x else x))

Changes-change :
    (f : Bool → Bool) (i j : ℕ) (x : Bool) (b : Bitmap)
    → IsWellFormed b
    → get_bit j b ≡ some x
    → Changes f i j x b (change f i b)
Changes-change f i j x b ok was =
    let (b', got, c) = change-IsChanged f i j b ok in
    (
      b',
      got,
      c.well_formed,
      c.same_len,
      c.bits ∙ ap (λ g. if (i == j) && ltb i b.len then mapped f g else g) was ∙ ground arith,
    )

-- On a bitmap with as many words as its bits need, Get, Set, Clear and Flip do not panic; the bitmap
-- stays such, of the same length, and bit j afterwards is true, false or the other one where j is the
-- bit called for and within the length, and what it was otherwise.
pub changed_bits :
    (i j : ℕ) (b : Bitmap)
    → IsWellFormed b
    → (x : Bool) × (get_bit j b ≡ some x)
      × Changes (λ y. true) i j x b (set_bit i b)
      × Changes (λ y. false) i j x b (clear_bit i b)
      × Changes not i j x b (flip_bit i b)
unfolding set_bit clear_bit flip_bit
changed_bits i j b ok =
    let (x, was) = get_bit-some j b ok in
    (
      x,
      was,
      Changes-change (λ y. true) i j x b ok was,
      Changes-change (λ y. false) i j x b ok was,
      Changes-change not i j x b ok was,
    )
