-- ===== src/Prelude/Bisect.antt =====
-- Go's `sort.Search`: the least index at which a monotone test holds, by bisection.
use Prim.Native.Nat.{ℕ, zero, suc, ◌+◌, ◌-◌, ◌/◌, ◌≤◌, ◌<◌}
use mathlib.Core.Path.{◌≡◌}
use mathlib.Core.Bool.{Bool, true, false}
use mathlib.Core.Logic.{inl, inr}
use native.Mathlib.Omega.{arith}
use test_db.Prelude.Booleans.{if◌then◌else◌, ltb, Bool-cases}

-- `for i < j { h := (i+j)/2; if !f(h) { i = h+1 } else { j = h } }; return i`, on fuel.
pub search_loop : ℕ → (ℕ → Bool) → ℕ → ℕ → ℕ
search_loop zero f i j = i
search_loop (suc fuel) f i j =
    let h = (i + j) / 2 in
    let rest = search_loop fuel f (if f h then i else h + 1) (if f h then h else j) in
    if ltb i j then rest else i

unfoldable pub sort_search : ℕ → (ℕ → Bool) → ℕ
unfolding search_loop
sort_search n f = search_loop n f 0 n

-- `r` is the least index up to `n` at which `f` holds, and `n` if there is none.
pub record IsLeast (n : ℕ) (f : ℕ → Bool) (r : ℕ) : Type 0 where
  pub within : r ≤ n
  pub below : (k : ℕ) → k < r → f k ≡ false
  pub above : (k : ℕ) → r ≤ k → k < n → f k ≡ true

abbrev pub IsMonotone : ℕ → (ℕ → Bool) → Type 0
IsMonotone n f = (a b : ℕ) → a ≤ b → b < n → f a ≡ true → f b ≡ true

below_false : (f : ℕ → Bool) (k h : ℕ) → (f k ≡ true → f h ≡ true) → f h ≡ false → f k ≡ false
below_false f k h up down = ground arith

module _ (n : ℕ) (f : ℕ → Bool) (mono : IsMonotone n f) where
  search_loop-IsLeast :
      (fuel i j : ℕ)
      → j - i ≤ fuel
      → i ≤ j
      → j ≤ n
      → ((k : ℕ) → k < i → f k ≡ false)
      → ((k : ℕ) → j ≤ k → k < n → f k ≡ true)
      → IsLeast n f (search_loop fuel f i j)
  unfolding search_loop
  search_loop-IsLeast zero i j hf hij hj lo hi = record {
    within = omega arith;
    below = lo;
    above = λ k p q. hi k (omega arith) q;
  }
  search_loop-IsLeast (suc fuel) i j hf hij hj lo hi = elim (Bool-cases (ltb i j)) [
    | inr done ↦
        rw done
          (record { within = omega arith; below = lo; above = λ k p q. hi k (ground arith) q })
    | inl more ↦ rw more (elim (Bool-cases (f ((i + j) / 2))) [
      | inl up ↦ rw up (
          search_loop-IsLeast fuel i ((i + j) / 2) (ground arith) (ground arith) (ground arith) lo
            (λ k p q. mono ((i + j) / 2) k p q up))
      | inr down ↦ rw down (
          search_loop-IsLeast fuel ((i + j) / 2 + 1) j (ground arith) (ground arith) hj
            (λ k p.
              below_false f k ((i + j) / 2) (mono k ((i + j) / 2) (omega arith) (ground arith))
                down)
            hi)
    ])
  ]

-- The loop makes enough rounds, and finds the least index.
pub sort_search-IsLeast : (n : ℕ) (f : ℕ → Bool) → IsMonotone n f → IsLeast n f (sort_search n f)
unfolding sort_search
sort_search-IsLeast n f mono =
    search_loop-IsLeast n f mono n 0 n (omega arith) (omega arith) (omega arith)
      (λ k p. absurd (omega arith)) (λ k p q. absurd (omega arith))
