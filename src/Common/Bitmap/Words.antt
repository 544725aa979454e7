-- ===== src/Common/Bitmap/Words.antt =====
-- The bits of lists of words combined.
use test_db.Prelude.{
  ℕ, zero, suc, ◌/◌, ◌%◌, ◌<◌, ◌≤◌, ◌≡◌, refl, sym, ap, ◌∙◌, arith, Bool, false, ◌&&◌, some, List,
  [], ◌∷◌, length, get_elem?, All,
}
use test_db.Common.Bitmap.{
  Word, zero_bits, zero_words, bit_at, combine_word, and_words, merge_words, longer,
}

abbrev pub AllFull : List Word → Type 0
AllFull = All (λ (w : Word). length w ≡ 64)

abbrev pub word_in : ℕ → List Word → Word
word_in k [] = []
word_in zero (w ∷ ws) = w
word_in (suc k) (w ∷ ws) = word_in k ws

-- Bit j of the words, where there is one.
abbrev pub bit_in : List Word → ℕ → Bool
bit_in ws j = bit_at (j % 64) (word_in (j / 64) ws)

pub word_in-there : (ws : List Word) (k : ℕ) (w : Word) → get_elem? ws k ≡ some w → word_in k ws ≡ w
word_in-there [] k w h = absurd (cc (h))
word_in-there (x ∷ ws) zero w h = cc (h)
word_in-there (x ∷ ws) (suc k) w h = word_in-there ws k w h

length-zero_bits : (n : ℕ) → length (zero_bits n) ≡ n
unfolding zero_bits
length-zero_bits zero = refl
length-zero_bits (suc n) = ap suc (length-zero_bits n)

pub bit_at-zero_bits : (i n : ℕ) → bit_at i (zero_bits n) ≡ false
unfolding bit_at zero_bits
bit_at-zero_bits i zero = refl
bit_at-zero_bits zero (suc n) = refl
bit_at-zero_bits (suc i) (suc n) = bit_at-zero_bits i n

bit_at-combine_word :
    (op : Bool → Bool → Bool) (i : ℕ) (w v : Word)
    → op false false ≡ false
    → length w ≡ length v
    → bit_at i (combine_word op w v) ≡ op (bit_at i w) (bit_at i v)
unfolding bit_at combine_word
bit_at-combine_word op i [] [] z h = sym z
bit_at-combine_word op i [] (y ∷ v) z h = absurd (omega (arith, h))
bit_at-combine_word op i (x ∷ w) [] z h = absurd (omega (arith, h))
bit_at-combine_word op zero (x ∷ w) (y ∷ v) z h = refl
bit_at-combine_word op (suc i) (x ∷ w) (y ∷ v) z h =
    bit_at-combine_word op i w v z (omega (arith, h))

length-combine_word :
    (op : Bool → Bool → Bool) (w v : Word) (n : ℕ)
    → length w ≡ n
    → length v ≡ n
    → length (combine_word op w v) ≡ n
unfolding combine_word
length-combine_word op [] [] n h k = h
length-combine_word op [] (y ∷ v) n h k = h
length-combine_word op (x ∷ w) [] n h k = k
length-combine_word op (x ∷ w) (y ∷ v) zero h k = absurd (omega (arith, h))
length-combine_word op (x ∷ w) (y ∷ v) (suc n) h k =
    ap suc (length-combine_word op w v n (omega (arith, h)) (omega (arith, k)))

pub and_words-bit :
    (i k : ℕ) (ws vs : List Word)
    → AllFull ws
    → AllFull vs
    → bit_at i (word_in k (and_words ws vs)) ≡ bit_at i (word_in k ws) && bit_at i (word_in k vs)
unfolding and_words bit_at
and_words-bit i k [] vs h g = refl
and_words-bit i zero (w ∷ ws) [] h g = bit_at-zero_bits i 64 ∙ ground arith
and_words-bit i (suc k) (w ∷ ws) [] h g = and_words-bit i k ws [] h.1 tt
and_words-bit i zero (w ∷ ws) (v ∷ vs) h g =
    bit_at-combine_word (λ x y. x && y) i w v refl (h.0 ∙ sym g.0)
and_words-bit i (suc k) (w ∷ ws) (v ∷ vs) h g = and_words-bit i k ws vs h.1 g.1

pub and_words-AllFull : (ws vs : List Word) → AllFull ws → AllFull vs → AllFull (and_words ws vs)
unfolding and_words
and_words-AllFull [] vs h g = tt
and_words-AllFull (w ∷ ws) [] h g = (length-zero_bits 64, and_words-AllFull ws [] h.1 tt)
and_words-AllFull (w ∷ ws) (v ∷ vs) h g =
    (length-combine_word (λ x y. x && y) w v 64 h.0 g.0, and_words-AllFull ws vs h.1 g.1)

pub length-and_words : (ws vs : List Word) → length (and_words ws vs) ≡ length ws
unfolding and_words
length-and_words [] vs = refl
length-and_words (w ∷ ws) [] = ap suc (length-and_words ws [])
length-and_words (w ∷ ws) (v ∷ vs) = ap suc (length-and_words ws vs)

-- An operation for which false on either side changes nothing.
module _ (op : Bool → Bool → Bool) (left : (y : Bool) → op false y ≡ y)
    (right : (x : Bool) → op x false ≡ x) where
  pub merge_words-bit :
      (i k : ℕ) (ws vs : List Word)
      → AllFull ws
      → AllFull vs
      → bit_at i (word_in k (merge_words op ws vs))
        ≡ op (bit_at i (word_in k ws)) (bit_at i (word_in k vs))
  unfolding merge_words bit_at
  merge_words-bit i k [] [] h g = sym (left false)
  merge_words-bit i zero [] (v ∷ vs) h g =
      bit_at-combine_word op i (zero_bits 64) v (left false) (length-zero_bits 64 ∙ sym g.0)
      ∙ ap (λ x. op x (bit_at i v)) (bit_at-zero_bits i 64)
  merge_words-bit i (suc k) [] (v ∷ vs) h g = merge_words-bit i k [] vs tt g.1
  merge_words-bit i k (w ∷ ws) [] h g = sym (right _)
  merge_words-bit i zero (w ∷ ws) (v ∷ vs) h g =
      bit_at-combine_word op i w v (left false) (h.0 ∙ sym g.0)
  merge_words-bit i (suc k) (w ∷ ws) (v ∷ vs) h g = merge_words-bit i k ws vs h.1 g.1

  pub merge_words-AllFull :
      (ws vs : List Word) → AllFull ws → AllFull vs → AllFull (merge_words op ws vs)
  unfolding merge_words
  merge_words-AllFull [] [] h g = tt
  merge_words-AllFull [] (v ∷ vs) h g = (
    length-combine_word op (zero_bits 64) v 64 (length-zero_bits 64) g.0,
    merge_words-AllFull [] vs tt g.1,
  )
  merge_words-AllFull (w ∷ ws) [] h g = h
  merge_words-AllFull (w ∷ ws) (v ∷ vs) h g =
      (length-combine_word op w v 64 h.0 g.0, merge_words-AllFull ws vs h.1 g.1)

  pub length-merge_words :
      (ws vs : List Word) → length (merge_words op ws vs) ≡ longer (length ws) (length vs)
  unfolding merge_words
  length-merge_words [] [] = refl
  length-merge_words [] (v ∷ vs) = ground (arith, length-merge_words [] vs)
  length-merge_words (w ∷ ws) [] = ground arith
  length-merge_words (w ∷ ws) (v ∷ vs) = ground (arith, length-merge_words ws vs)

word_in-zero_words : (i k n : ℕ) → bit_at i (word_in k (zero_words n)) ≡ false
unfolding bit_at zero_words
word_in-zero_words i k zero = refl
word_in-zero_words i zero (suc n) = bit_at-zero_bits i 64
word_in-zero_words i (suc k) (suc n) = word_in-zero_words i k n

above_zero : (n : ℕ) → 0 < n → (k : ℕ) × (n ≡ suc k)
above_zero zero h = absurd (omega (arith, h))
above_zero (suc k) h = (k, refl)

-- Behind the first word only zeros follow.
pub behind_first : (w : Word) (n j : ℕ) → 64 ≤ j → bit_in (w ∷ zero_words n) j ≡ false
behind_first w n j h =
    let (k, next) = above_zero (j / 64) (omega (arith, h)) in
    ap (λ m. bit_at (j % 64) (word_in m (w ∷ zero_words n))) next ∙ word_in-zero_words (j % 64) k n
