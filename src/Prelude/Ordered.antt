-- ===== src/Prelude/Ordered.antt =====
-- `sort.Search` over the elements of a list, as the linear scan that it replaces.
use Prim.Native.Nat.{ℕ, zero, suc, ◌<◌}
use mathlib.Core.Path.{◌≡◌}
use mathlib.Core.Bool.{Bool, true, false}
use mathlib.Core.List.{List, [], ◌∷◌}
use native.Mathlib.Omega.{arith}
use test_db.Prelude.Booleans.{if◌then◌else◌}
use test_db.Prelude.Lists.{length}
use test_db.Prelude.Bisect.{sort_search, IsLeast, IsMonotone, sort_search-IsLeast}

module _ {ℓ} {A : Type ℓ} (p : A → Bool) where
  -- `func(i int) bool { return p(xs[i]) }`; the search never asks past the end.
  abbrev pub holds_at : List A → ℕ → Bool
  holds_at [] i = false
  holds_at (x ∷ xs) zero = p x
  holds_at (x ∷ xs) (suc i) = holds_at xs i

  unfoldable pub search_elems : List A → ℕ
  unfolding sort_search
  search_elems xs = sort_search (length xs) (holds_at xs)

  -- How many elements stand before the first that passes.
  unfoldable pub position : List A → ℕ
  position [] = 0
  position (x ∷ xs) = let rest = position xs in if p x then 0 else suc rest

  -- Once an element passes, all after it pass.
  abbrev pub IsUpward : List A → Type ℓ
  IsUpward [] = Unit {ℓ}
  IsUpward (x ∷ xs) = (p x ≡ true → (i : ℕ) → i < length xs → holds_at xs i ≡ true) × IsUpward xs

  pub IsUpward-IsMonotone : (xs : List A) → IsUpward xs → IsMonotone (length xs) (holds_at xs)
  IsUpward-IsMonotone [] u a b le lt h = absurd (omega arith)
  IsUpward-IsMonotone (x ∷ xs) u zero zero le lt h = h
  IsUpward-IsMonotone (x ∷ xs) u zero (suc b) le lt h = u.0 h b (omega arith)
  IsUpward-IsMonotone (x ∷ xs) u (suc a) zero le lt h = absurd (omega arith)
  IsUpward-IsMonotone (x ∷ xs) u (suc a) (suc b) le lt h =
      IsUpward-IsMonotone xs u.1 a b (omega arith) (omega arith) h

  IsLeast-position : (xs : List A) (r : ℕ) → IsLeast (length xs) (holds_at xs) r → r ≡ position xs
  unfolding position
  IsLeast-position [] r l = omega (arith, l.within)
  IsLeast-position (x ∷ xs) zero l = ground (arith, l.above 0)
  IsLeast-position (x ∷ xs) (suc r) l = ground (
    arith,
    l.below 0,
    IsLeast-position xs r (record {
      within = omega (arith, l.within);
      below = λ k h. l.below (suc k) (omega arith);
      above = λ k h i. l.above (suc k) (omega arith) (omega arith);
    }),
  )

  pub search_elems-position : (xs : List A) → IsUpward xs → search_elems xs ≡ position xs
  unfolding search_elems
  search_elems-position xs u =
      IsLeast-position xs _ (sort_search-IsLeast _ _ (IsUpward-IsMonotone xs u))
