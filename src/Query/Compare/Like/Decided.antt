-- ===== src/Query/Compare/Like/Decided.antt =====
-- The loop of LIKE comes to its end, and on a text without '%' gives what the pattern means.
use native.Mathlib.Nat.{add-mul}
use test_db.Prelude.{
  ℕ, zero, suc, ◌+◌, ◌*◌, ◌<◌, ◌≤◌, ◌≡◌, refl, sym, ◌∙◌, ap, arith, Bool, true, false, ◌||◌, Option,
  none, some, [], ◌∷◌, Str, length, ◌==◌, Bool-cases, inl, inr, All,
}
use test_db.Query.Compare.Like.{Star, Round, only_percents, step_back, like_loop, like_match}
use test_db.Query.Compare.Like.Reference.{
  any_suffix, matches, only_percents-matches, matches-percent, any_suffix_self, any_suffix_percent,
  any_suffix-tail, matches-byte,
}

-- A text without '%'.
abbrev pub IsPlain : Str → Type 0
IsPlain = All (λ (x : ℕ). x == b'%' ≡ false)

abbrev Implies : Bool → Bool → Type 0
Implies a b = a ≡ true → b ≡ true

no_percent : (p x : ℕ) → (p == b'_' || p == x) ≡ true → x == b'%' ≡ false → p == b'%' ≡ false
no_percent p x h k = ground (arith, h, k)

-- The fuel that LIKE gives its loop.
pub enough : (n k : ℕ) → n * suc k + k < suc ((n + 1) * (k + 1) + n)
enough n k =
    let same : suc k ≡ k + 1 = omega arith in
    omega (arith, add-mul n 1 (k + 1), ap (λ t. n * t) same)

-- `g` is the answer; every pattern in play is shorter than `k`, and the text that is left to go back to at most `m`.
module _ (g : Bool) (k : ℕ) where
  abbrev Saved : ℕ → Str → Str → Star → Type 0
  Saved m s ps none = Implies g (matches ps s)
  Saved m s ps (some (qs, xs)) =
      (g ≡ any_suffix (matches qs) xs)
      × (Implies (matches qs xs) (matches ps s))
      × (length s ≤ length xs)
      × (length xs ≤ m)
      × (length qs < k)
      × (IsPlain xs)

  record Ready (f m : ℕ) (s ps : Str) (star : Star) : Type 0 where
    now : Implies (matches ps s) g
    later : Implies g (any_suffix (matches ps) s)
    saved : Saved m s ps star
    text : length s ≤ m
    pattern : length ps < k
    fuel : m * k + length ps < f
    plain : IsPlain s

  abbrev Right : Option Bool → Type 0
  Right r = r ≡ some g

  both : (a : Bool) → Implies a g → Implies g a → Right (some a)
  both a h l = ground (arith, h, l)

  -- The loop starts anew after a '%'.
  restart :
      (f m : ℕ) (s ps : Str)
      → g ≡ any_suffix (matches ps) s
      → length s ≤ m
      → length ps < k
      → m * k + length ps < f
      → IsPlain s
      → Ready f m s ps (some (ps, s))
  restart f m s ps e hs hp hf hx = record {
    now = λ h. e ∙ any_suffix_self (matches ps) s h;
    later = λ h. sym e ∙ h;
    saved = (e, λ h. h, omega arith, hs, hp, hx);
    text = hs;
    pattern = hp;
    fuel = hf;
    plain = hx;
  }

  Saved-byte :
      (m x p : ℕ) (xs ps : Str) (star : Star)
      → matches (p ∷ ps) (x ∷ xs) ≡ matches ps xs
      → Saved m (x ∷ xs) (p ∷ ps) star
      → Saved m xs ps star
  Saved-byte m x p xs ps none e h = λ i. sym e ∙ h i
  Saved-byte m x p xs ps (some (qs, ys)) e h =
      (h.0, λ i. sym e ∙ h.1 i, omega (arith, h.2), h.3, h.4, h.5)

  Ready-byte :
      (f m x p : ℕ) (xs ps : Str) (star : Star)
      → (p == b'_' || p == x) ≡ true
      → Ready (suc f) m (x ∷ xs) (p ∷ ps) star
      → Ready f m xs ps star
  Ready-byte f m x p xs ps star h r =
      let e = matches-byte p x ps xs h r.plain.0 in
      record {
        now = λ i. r.now (e ∙ i);
        later = λ i. any_suffix-tail p ps x xs (no_percent p x h r.plain.0) (r.later i);
        saved = Saved-byte m x p xs ps star e r.saved;
        text = omega (arith, r.text);
        pattern = omega (arith, r.pattern);
        fuel = omega (arith, r.fuel);
        plain = r.plain.1;
      }

  -- The text goes on after its first rune, where the saved pattern does not match at it.
  step_back-Right :
      (f m x : ℕ) (xs ps : Str) (star : Star) (next : Round)
      → ((m' : ℕ) (s' ps' : Str) (star' : Star)
          → Ready f m' s' ps' star'
          → Right (next s' ps' star'))
      → Ready (suc f) m (x ∷ xs) ps star
      → matches ps (x ∷ xs) ≡ false
      → Right (step_back star next)
  unfolding step_back
  step_back-Right f m x xs ps none next ih r h = ground (arith, r.saved, h)
  step_back-Right f m x xs ps (some (qs, [])) next ih r h = absurd (omega (arith, r.saved.2))
  step_back-Right f zero x xs ps (some (qs, y ∷ ys)) next ih r h = absurd (omega (arith, r.text))
  step_back-Right f (suc m) x xs ps (some (qs, y ∷ ys)) next ih r h =
      let down = r.saved.1 in
      ih m ys qs (some (qs, ys)) (
        restart f m ys qs (ground (arith, r.saved.0, down, h)) (omega (arith, r.saved.3)) r.saved.4
          (omega (arith, r.fuel, r.saved.4)) r.saved.5.1)

  like_loop-Right :
      (f m : ℕ) (s ps : Str) (star : Star) → Ready f m s ps star → Right (like_loop f s ps star)
  unfolding like_loop
  like_loop-Right zero m s ps star r = absurd (omega (arith, r.fuel))
  like_loop-Right (suc f) m [] ps star r =
      both (only_percents ps) (λ h. r.now (sym (only_percents-matches ps) ∙ h))
        (λ h. only_percents-matches ps ∙ r.later h)
  like_loop-Right (suc f) m (x ∷ xs) [] star r =
      step_back-Right f m x xs [] star (like_loop f) (like_loop-Right f) r (unfold matches in refl)
  like_loop-Right (suc f) m (x ∷ xs) (p ∷ ps) star r = elim (Bool-cases (p == b'_' || p == x)) [
    | inl same ↦ rw (same) (like_loop-Right f m xs ps star (Ready-byte f m x p xs ps star same r))
    | inr other ↦ rw (other) (elim (Bool-cases (p == b'%')) [
      | inl percent ↦ rw (percent) (
          like_loop-Right f m (x ∷ xs) ps (some (ps, x ∷ xs)) (
            restart f m (x ∷ xs) ps
              (ground (
                arith,
                matches-percent p ps (x ∷ xs) percent,
                r.now,
                r.later,
                any_suffix_percent p ps (x ∷ xs) percent,
              ))
              r.text (omega (arith, r.pattern)) (omega (arith, r.fuel)) r.plain))
      | inr literal ↦ rw (literal) (
          step_back-Right f m x xs (p ∷ ps) star (like_loop f) (like_loop-Right f) r
            (unfold matches in ground (arith, other, literal)))
    ])
  ]

-- LIKE on a text without '%' ends with what the pattern means: '%' stands for any text, '_' for any
-- rune, and any other rune for itself.
pub like_match-matches : (s ps : Str) → IsPlain s → like_match s ps ≡ some (matches ps s)
unfolding like_match
like_match-matches s ps h =
    like_loop-Right (matches ps s) (suc (length ps)) _ (length s) s ps none (record {
      now = λ i. i;
      later = λ i. any_suffix_self (matches ps) s i;
      saved = λ i. i;
      text = omega arith;
      pattern = omega arith;
      fuel = enough (length s) (length ps);
      plain = h;
    })
