-- ===== src/Query/Compare/Like/Ends.antt =====
-- The loop of LIKE comes to its end on every text.
use test_db.Prelude.{
  ℕ, zero, suc, ◌+◌, ◌*◌, ◌<◌, ◌≤◌, ◌≡◌, refl, arith, Bool, false, Option, none, some, [], ◌∷◌, Str,
  length, ◌==◌, ◌||◌, Bool-cases, inl, inr,
}
use test_db.Query.Compare.Like.{Star, Round, only_percents, step_back, like_loop, like_match}
use test_db.Query.Compare.Like.Decided.{enough}

abbrev Ended : Option Bool → Type 0
Ended r = (b : Bool) × (r ≡ some b)

-- Every pattern in play is shorter than `k`, and the text that is left to go back to at most `m`.
module _ (k : ℕ) where
  abbrev Saved : ℕ → Str → Star → Type 0
  Saved m s none = Unit {0}
  Saved m s (some (qs, xs)) = (length s ≤ length xs) × (length xs ≤ m) × (length qs < k)

  record Paid (f m : ℕ) (s ps : Str) (star : Star) : Type 0 where
    saved : Saved m s star
    text : length s ≤ m
    fuel : m * k + length ps < f
    pattern : length ps < k

  Saved-shorter : (m x : ℕ) (xs : Str) (star : Star) → Saved m (x ∷ xs) star → Saved m xs star
  Saved-shorter m x xs none h = h
  Saved-shorter m x xs (some (qs, ys)) h = (omega (arith, h.0), h.1, h.2)

  step_back-Ended :
      (f m x : ℕ) (xs ps : Str) (star : Star) (next : Round)
      → ((m' : ℕ) (s' ps' : Str) (star' : Star)
          → Paid f m' s' ps' star'
          → Ended (next s' ps' star'))
      → Paid (suc f) m (x ∷ xs) ps star
      → Ended (step_back star next)
  unfolding step_back
  step_back-Ended f m x xs ps none next ih r = (false, refl)
  step_back-Ended f m x xs ps (some (qs, [])) next ih r = absurd (omega (arith, r.saved.0))
  step_back-Ended f zero x xs ps (some (qs, y ∷ ys)) next ih r = absurd (omega (arith, r.text))
  step_back-Ended f (suc m) x xs ps (some (qs, y ∷ ys)) next ih r =
      ih m ys qs (some (qs, ys)) (record {
        saved = (omega arith, omega (arith, r.saved.1), r.saved.2);
        text = omega (arith, r.saved.1);
        fuel = omega (arith, r.fuel, r.saved.2);
        pattern = r.saved.2;
      })

  like_loop-Ended :
      (f m : ℕ) (s ps : Str) (star : Star) → Paid f m s ps star → Ended (like_loop f s ps star)
  unfolding like_loop
  like_loop-Ended zero m s ps star r = absurd (omega (arith, r.fuel))
  like_loop-Ended (suc f) m [] ps star r = (only_percents ps, refl)
  like_loop-Ended (suc f) m (x ∷ xs) [] star r =
      step_back-Ended f m x xs [] star (like_loop f) (like_loop-Ended f) r
  like_loop-Ended (suc f) m (x ∷ xs) (p ∷ ps) star r = elim (Bool-cases (p == b'_' || p == x)) [
    | inl same ↦ rw (same) (
        like_loop-Ended f m xs ps star (record {
          saved = Saved-shorter m x xs star r.saved;
          text = omega (arith, r.text);
          fuel = omega (arith, r.fuel);
          pattern = omega (arith, r.pattern);
        }))
    | inr other ↦ rw (other) (elim (Bool-cases (p == b'%')) [
      | inl percent ↦ rw (percent) (
          like_loop-Ended f m (x ∷ xs) ps (some (ps, x ∷ xs)) (record {
            saved = (omega arith, r.text, omega (arith, r.pattern));
            text = r.text;
            fuel = omega (arith, r.fuel);
            pattern = omega (arith, r.pattern);
          }))
      | inr literal ↦
          rw (literal) (step_back-Ended f m x xs (p ∷ ps) star (like_loop f) (like_loop-Ended f) r)
    ])
  ]

-- The loop of LIKE ends with an answer, for every text and every pattern, before its fuel runs out.
pub like_match-Ended : (s ps : Str) → (b : Bool) × (like_match s ps ≡ some b)
unfolding like_match
like_match-Ended s ps = like_loop-Ended (suc (length ps)) _ (length s) s ps none (record {
  saved = tt;
  text = omega arith;
  fuel = enough (length s) (length ps);
  pattern = omega arith;
})
