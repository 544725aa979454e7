-- ===== src/Common/Bitmap/Combined.antt =====
-- The bits of two bitmaps combined.
use mathlib.Core.Path.{subst, ap₂}
use test_db.Prelude.{
  ℕ, ◌*◌, ◌/◌, ◌%◌, ◌≤◌, ◌≡◌, refl, sym, ap, ◌∙◌, arith, Bool, true, false, ◌&&◌, ◌||◌, some, leb,
  if◌then◌else◌, length, get_elem?, Bool-cases, inl, inr,
}
use test_db.Common.Bitmap.{
  Bitmap, bit_at, get_bit, merge_words, bool_xor, longer, and_bitmap, or_bitmap, xor_bitmap,
}
use test_db.Common.Bitmap.Bits.{IsWellFormed, word_there, in_words, get_bit-read, read}
use test_db.Common.Bitmap.Words.{
  bit_in, word_in-there, and_words-bit, and_words-AllFull, length-and_words, merge_words-bit,
  merge_words-AllFull, length-merge_words,
}

-- No bit is set beyond the length.
abbrev pub IsClean : Bitmap → Type 0
IsClean b = (j : ℕ) → leb b.len j ≡ true → bit_in b.words j ≡ false

get_bit-bit_in :
    (j : ℕ) (b : Bitmap) → IsWellFormed b → IsClean b → get_bit j b ≡ some (bit_in b.words j)
get_bit-bit_in j b ok clean = elim (Bool-cases (leb b.len j)) [
  | inl beyond ↦
      get_bit-read j b
      ∙ ap (λ c. if c then some false else read j (get_elem? b.words (j / 64))) beyond
      ∙ ap (λ x. some x) (sym (clean j beyond))
  | inr inside ↦
      let (w, found, own) =
        word_there b.words (j / 64) ok.full (in_words j b.len (length b.words) inside ok.enough) in
      get_bit-read j b
      ∙ ap (λ c. if c then some false else read j (get_elem? b.words (j / 64))) inside
      ∙ ap (read j) found
      ∙ ap (λ v. some (bit_at (j % 64) v)) (sym (word_in-there b.words (j / 64) w found))
]

longer_enough : (m n k l : ℕ) → m ≤ k * 64 → n ≤ l * 64 → longer m n ≤ longer k l * 64
longer_enough m n k l h g = ground (arith, h, g)

beyond_both : (m n j : ℕ) → leb (longer m n) j ≡ true → (leb m j ≡ true) × (leb n j ≡ true)
beyond_both m n j h = (ground (arith, h), ground (arith, h))

and-IsWellFormed : (a b : Bitmap) → IsWellFormed a → IsWellFormed b → IsWellFormed (and_bitmap a b)
unfolding and_bitmap
and-IsWellFormed a b h g = record {
  enough = subst (λ n. a.len ≤ n * 64) (sym (length-and_words a.words b.words)) h.enough;
  full = and_words-AllFull a.words b.words h.full g.full;
}

module _ (op : Bool → Bool → Bool) (left : (y : Bool) → op false y ≡ y)
    (right : (x : Bool) → op x false ≡ x) (a b : Bitmap) where
  abbrev merged : Bitmap
  merged = record { words = merge_words op a.words b.words; len = longer a.len b.len }

  merged-IsWellFormed : IsWellFormed a → IsWellFormed b → IsWellFormed merged
  merged-IsWellFormed h g = record {
    enough =
        subst (λ n. longer a.len b.len ≤ n * 64)
          (sym (length-merge_words op left right a.words b.words))
          (longer_enough a.len b.len (length a.words) (length b.words) h.enough g.enough);
    full = merge_words-AllFull op left right a.words b.words h.full g.full;
  }

  merged-bit_in :
      (j : ℕ)
      → IsWellFormed a
      → IsWellFormed b
      → bit_in merged.words j ≡ op (bit_in a.words j) (bit_in b.words j)
  merged-bit_in j h g =
      merge_words-bit op left right (j % 64) (j / 64) a.words b.words h.full g.full

  merged-IsClean : IsWellFormed a → IsWellFormed b → IsClean a → IsClean b → IsClean merged
  merged-IsClean h g ca cb j beyond =
      let (over_a, over_b) = beyond_both a.len b.len j beyond in
      merged-bit_in j h g ∙ ap₂ op (ca j over_a) (cb j over_b) ∙ left false

-- A bitmap that is in order and has a bit at j.
abbrev pub Holds : ℕ → Bool → Bitmap → Type 0
Holds j x b = IsWellFormed b × IsClean b × (get_bit j b ≡ some x)

Holds-bit_in :
    (j : ℕ) (x : Bool) (b : Bitmap)
    → IsWellFormed b
    → IsClean b
    → bit_in b.words j ≡ x
    → Holds j x b
Holds-bit_in j x b ok clean h = (ok, clean, get_bit-bit_in j b ok clean ∙ ap (λ y. some y) h)

or_left : (y : Bool) → (false || y) ≡ y
or_left y = refl

or_right : (x : Bool) → (x || false) ≡ x
or_right true = refl
or_right false = refl

xor_right : (x : Bool) → bool_xor x false ≡ x
xor_right true = refl
xor_right false = refl

-- Of two bitmaps that have as many words as their bits need and no bit set beyond their length, And, Or
-- and Xor give such a bitmap, whose bit at every place is the conjunction, the disjunction or the
-- difference of theirs, where a bit beyond the length of a bitmap counts as not set.
pub combined_bits :
    (a b : Bitmap) (j : ℕ)
    → IsWellFormed a
    → IsWellFormed b
    → IsClean a
    → IsClean b
    → (x : Bool) × (y : Bool) × (get_bit j a ≡ some x)
      × (get_bit j b ≡ some y)
      × Holds j (x && y) (and_bitmap a b)
      × Holds j (x || y) (or_bitmap a b)
      × Holds j (bool_xor x y) (xor_bitmap a b)
unfolding and_bitmap or_bitmap xor_bitmap
combined_bits a b j h g ca cb =
    let x = bit_in a.words j in
    let y = bit_in b.words j in
    let both = λ (i : ℕ). and_words-bit (i % 64) (i / 64) a.words b.words h.full g.full in
    (
      x,
      y,
      get_bit-bit_in j a h ca,
      get_bit-bit_in j b g cb,
      Holds-bit_in j (x && y) (and_bitmap a b) (and-IsWellFormed a b h g)
          (λ i beyond. both i ∙ ap (λ u. u && bit_in b.words i) (ca i beyond)) (both j),
      Holds-bit_in j (x || y) (or_bitmap a b)
          (merged-IsWellFormed (λ u v. u || v) or_left or_right a b h g)
          (merged-IsClean (λ u v. u || v) or_left or_right a b h g ca cb)
          (merged-bit_in (λ u v. u || v) or_left or_right a b j h g),
      Holds-bit_in j (bool_xor x y) (xor_bitmap a b)
          (merged-IsWellFormed bool_xor (λ v. refl) xor_right a b h g)
          (merged-IsClean bool_xor (λ v. refl) xor_right a b h g ca cb)
          (merged-bit_in bool_xor (λ v. refl) xor_right a b j h g),
    )
