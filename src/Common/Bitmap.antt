-- ===== src/Common/Bitmap.antt =====
-- pkg/common/bitmap.go: the bitmap of null flags, its calls on one bit and those on two bitmaps.
pub mod Bits
pub mod Words
pub mod Combined
mod Runs
use test_db.Prelude.{
  ℕ, zero, suc, ◌+◌, ◌-◌, ◌/◌, ◌%◌, ◌^◌, Bool, true, false, not, ◌&&◌, ◌||◌, ltb, Option, none,
  some, List, [], ◌∷◌, ◌++◌, leb, if◌then◌else◌, length, get_elem?, set,
}

-- The 64 bits of a uint64, the lowest first.
abbrev pub Word : Type 0
Word = List Bool

pub record Bitmap : Type 0 where
  pub words : List Word
  pub len : ℕ

unfoldable pub zero_bits : ℕ → Word
zero_bits zero = []
zero_bits (suc n) = false ∷ zero_bits n

unfoldable pub zero_words : ℕ → List Word
zero_words zero = []
zero_words (suc n) = zero_bits 64 ∷ zero_words n

unfoldable pub new_bitmap : ℕ → Bitmap
new_bitmap length = record { words = zero_words ((length + 63) % 2 ^ 32 / 64); len = length }

-- word & (1 << bit) != 0
unfoldable pub bit_at : ℕ → Word → Bool
bit_at i [] = false
bit_at zero (x ∷ w) = x
bit_at (suc i) (x ∷ w) = bit_at i w

-- word |= 1 << bit, word &^= 1 << bit and word ^= 1 << bit
unfoldable pub change_bit : (Bool → Bool) → ℕ → Word → Word
change_bit f i [] = []
change_bit f zero (x ∷ w) = f x ∷ w
change_bit f (suc i) (x ∷ w) = x ∷ change_bit f i w

-- `none` where the word is out of range, which panics.
unfoldable pub change : (Bool → Bool) → ℕ → Bitmap → Option Bitmap
change f i b = if leb b.len i then some b else elim (get_elem? b.words (i / 64)) [
  | none ↦ none
  | some w ↦ some (record b { words = set b.words (i / 64) (change_bit f (i % 64) w) })
]

unfoldable pub set_bit : ℕ → Bitmap → Option Bitmap
unfolding change
set_bit i b = change (λ x. true) i b

unfoldable pub clear_bit : ℕ → Bitmap → Option Bitmap
unfolding change
clear_bit i b = change (λ x. false) i b

unfoldable pub flip_bit : ℕ → Bitmap → Option Bitmap
unfolding change
flip_bit i b = change not i b

unfoldable pub get_bit : ℕ → Bitmap → Option Bool
unfolding bit_at
get_bit i b =
    if leb b.len i
    then some false
    else elim (get_elem? b.words (i / 64)) [ none ↦ none | some w ↦ some (bit_at (i % 64) w) ]

unfoldable pub grow : ℕ → Bitmap → Bitmap
grow new_len b =
    let words = (new_len + 63) % 2 ^ 32 / 64 in
    if leb new_len b.len
    then b
    else if leb words (length b.words)
    then record b { len = new_len }
    else record { words = b.words ++ zero_words (words - length b.words); len = new_len }

-- Two words, bit by bit.
unfoldable pub combine_word : (Bool → Bool → Bool) → Word → Word → Word
combine_word op (x ∷ w) (y ∷ v) = op x y ∷ combine_word op w v
combine_word op _ _ = []

-- The loops of And: the words that the other has, and zero for those that it has not.
unfoldable pub and_words : List Word → List Word → List Word
and_words [] vs = []
and_words (w ∷ ws) [] = zero_bits 64 ∷ and_words ws []
and_words (w ∷ ws) (v ∷ vs) = combine_word (λ x y. x && y) w v ∷ and_words ws vs

-- The loops of Or and Xor: words that only one of the two has are combined with zero.
unfoldable pub merge_words : (Bool → Bool → Bool) → List Word → List Word → List Word
merge_words op [] [] = []
merge_words op [] (v ∷ vs) = combine_word op (zero_bits 64) v ∷ merge_words op [] vs
merge_words op (w ∷ ws) [] = w ∷ ws
merge_words op (w ∷ ws) (v ∷ vs) = combine_word op w v ∷ merge_words op ws vs

abbrev pub bool_xor : Bool → Bool → Bool
bool_xor true y = not y
bool_xor false y = y

abbrev pub longer : ℕ → ℕ → ℕ
longer m n = if ltb m n then n else m

unfoldable pub and_bitmap : Bitmap → Bitmap → Bitmap
and_bitmap a b = record a { words = and_words a.words b.words }

unfoldable pub or_bitmap : Bitmap → Bitmap → Bitmap
or_bitmap a b = record {
  words = merge_words (λ x y. x || y) a.words b.words;
  len = longer a.len b.len;
}

unfoldable pub xor_bitmap : Bitmap → Bitmap → Bitmap
xor_bitmap a b = record { words = merge_words bool_xor a.words b.words; len = longer a.len b.len }
