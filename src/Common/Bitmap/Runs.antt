-- ===== src/Common/Bitmap/Runs.antt =====
-- Bitmaps (pkg/common/bitmap.go) at concrete inputs.
use test_db.Prelude.{ℕ, ◌≤◌, ◌≡◌, refl, arith, Bool, true, false, not, ◌&&◌, ◌||◌, some, ◌∷◌, leb}
use test_db.Common.Bitmap.{
  Bitmap, zero_bits, zero_words, new_bitmap, set_bit, clear_bit, flip_bit, get_bit, bool_xor,
  and_bitmap, or_bitmap, xor_bitmap,
}
use test_db.Common.Bitmap.Words.{behind_first}
use test_db.Common.Bitmap.Combined.{IsClean, Holds, combined_bits}
use test_db.Common.Bitmap.Bits.{IsWellFormed, Changes, changed_bits}

-- 70 bits in two words.
abbrev flags : Bitmap
unfolding new_bitmap zero_words zero_bits
flags = new_bitmap 70

flags-IsWellFormed : IsWellFormed flags
unfolding flags
flags-IsWellFormed = record { enough = omega arith; full = (refl, (refl, tt)) }

changed_bits_example :
    (x : Bool) × (get_bit 65 flags ≡ some x)
    × Changes (λ y. true) 65 65 x flags (set_bit 65 flags)
    × Changes (λ y. false) 65 65 x flags (clear_bit 65 flags)
    × Changes not 65 65 x flags (flip_bit 65 flags)
changed_bits_example = changed_bits 65 65 flags flags-IsWellFormed

-- 100 bits, of which the first is set, and 130, of which the second is.
abbrev first : Bitmap
unfolding zero_words zero_bits
first = record { words = (true ∷ zero_bits 63) ∷ zero_words 1; len = 100 }

abbrev second : Bitmap
unfolding zero_words zero_bits
second = record { words = (false ∷ true ∷ zero_bits 62) ∷ zero_words 2; len = 130 }

first-IsWellFormed : IsWellFormed first
unfolding first
first-IsWellFormed = record { enough = omega arith; full = (refl, (refl, tt)) }

second-IsWellFormed : IsWellFormed second
unfolding second
second-IsWellFormed = record { enough = omega arith; full = (refl, (refl, (refl, tt))) }

long : (n j : ℕ) → 64 ≤ n → leb n j ≡ true → 64 ≤ j
long n j h k = let over : n ≤ j = ground (arith, k) in omega (arith, h, over)

first-IsClean : IsClean first
unfolding first
first-IsClean j h = behind_first _ 1 j (long 100 j (omega arith) h)

second-IsClean : IsClean second
unfolding second
second-IsClean j h = behind_first _ 2 j (long 130 j (omega arith) h)

combined_bits_example :
    (x : Bool) × (y : Bool) × (get_bit 1 first ≡ some x)
    × (get_bit 1 second ≡ some y)
    × Holds 1 (x && y) (and_bitmap first second)
    × Holds 1 (x || y) (or_bitmap first second)
    × Holds 1 (bool_xor x y) (xor_bitmap first second)
combined_bits_example =
    combined_bits first second 1 first-IsWellFormed second-IsWellFormed first-IsClean second-IsClean
