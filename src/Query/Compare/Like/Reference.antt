-- ===== src/Query/Compare/Like/Reference.antt =====
-- What LIKE means, and that the loop decides it on texts without '%', on the fuel that it is given.
use test_db.Prelude.{
  ℕ, ◌≡◌, refl, sym, ◌∙◌, arith, Bool, true, false, ◌||◌, [], ◌∷◌, Str, ◌==◌, if◌then◌else◌,
}
use test_db.Query.Compare.Like.{only_percents}

-- Some suffix of the text passes.
abbrev pub any_suffix : (Str → Bool) → Str → Bool
any_suffix f [] = f []
any_suffix f (x ∷ xs) = f (x ∷ xs) || any_suffix f xs

-- '%' stands for any text, '_' for any rune, and any other rune for itself.
unfoldable pub matches : Str → Str → Bool
matches [] [] = true
matches [] (x ∷ xs) = false
matches (p ∷ ps) [] = let rest = matches ps [] in if p == b'%' then rest else false
matches (p ∷ ps) (x ∷ xs) =
    let starred = any_suffix (matches ps) (x ∷ xs) in
    let onward = matches ps xs in
    if p == b'%' then starred else if p == b'_' || p == x then onward else false

pub only_percents-matches : (ps : Str) → only_percents ps ≡ matches ps []
unfolding only_percents matches
only_percents-matches [] = refl
only_percents-matches (p ∷ ps) = ground (arith, only_percents-matches ps)

pub matches-percent :
    (p : ℕ) (ps xs : Str) → p == b'%' ≡ true → matches (p ∷ ps) xs ≡ any_suffix (matches ps) xs
unfolding matches
matches-percent p ps [] h = rw (h) refl
matches-percent p ps (x ∷ xs) h = rw (h) refl

pub any_suffix_self : (f : Str → Bool) (xs : Str) → f xs ≡ true → any_suffix f xs ≡ true
any_suffix_self f [] h = h
any_suffix_self f (x ∷ xs) h = rw (h) refl

any_suffix-cons :
    (f : Str → Bool) (x : ℕ) (xs : Str) → any_suffix f xs ≡ true → any_suffix f (x ∷ xs) ≡ true
any_suffix-cons f x xs h = ground (arith, h)

-- A '%' after a '%' adds nothing.
pub any_suffix_percent :
    (p : ℕ) (ps xs : Str)
    → p == b'%' ≡ true
    → any_suffix (matches (p ∷ ps)) xs ≡ true
    → any_suffix (matches ps) xs ≡ true
any_suffix_percent p ps [] h k = sym (matches-percent p ps [] h) ∙ k
any_suffix_percent p ps (x ∷ xs) h k =
    ground (arith, h, k, matches-percent p ps (x ∷ xs), any_suffix_percent p ps xs)

-- Where a pattern that takes a rune matches some suffix, the rest of it matches one after the first rune.
pub any_suffix-tail :
    (p : ℕ) (ps : Str) (x : ℕ) (xs : Str)
    → p == b'%' ≡ false
    → any_suffix (matches (p ∷ ps)) (x ∷ xs) ≡ true
    → any_suffix (matches ps) xs ≡ true
unfolding matches
any_suffix-tail p ps x [] h k = ground (arith, h, k)
any_suffix-tail p ps x (y ∷ ys) h k = ground (
  arith,
  h,
  k,
  any_suffix_self (matches ps) (y ∷ ys),
  any_suffix-tail p ps y ys h,
  any_suffix-cons (matches ps) y ys,
)

pub matches-byte :
    (p x : ℕ) (ps xs : Str)
    → (p == b'_' || p == x) ≡ true
    → x == b'%' ≡ false
    → matches (p ∷ ps) (x ∷ xs) ≡ matches ps xs
unfolding matches
matches-byte p x ps xs h k = ground (arith, h, k)
