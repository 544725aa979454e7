-- ===== src/Prelude/Maps.antt =====
-- Go's `map[string]V` as an association list: a key is found at its first entry.
use mathlib.Core.Path.{◌≡◌, refl}
use mathlib.Core.Bool.{false}
use mathlib.Core.List.{List, [], ◌∷◌}
use mathlib.Core.Option.{Option, none, some}
use native.Mathlib.Omega.{arith}
use test_db.Prelude.Booleans.{if◌then◌else◌}
use test_db.Prelude.Strings.{Str, str_eq, str_eq_refl, str_eq_left}

abbrev pub Dict {ℓ} : Type ℓ → Type ℓ
Dict V = List (Str × V)

module _ {ℓ} {V : Type ℓ} where
  unfoldable pub find : Str → Dict V → Option V
  find key [] = none
  find key ((k, v) ∷ d) = if str_eq k key then some v else find key d

  -- m[key] = v
  unfoldable pub put : Str → V → Dict V → Dict V
  put key v [] = (key, v) ∷ []
  put key v ((k, w) ∷ d) =
      let rest = put key v d in if str_eq k key then (key, v) ∷ d else (k, w) ∷ rest

  -- delete(m, key)
  unfoldable pub erase : Str → Dict V → Dict V
  erase key [] = []
  erase key ((k, v) ∷ d) = let rest = erase key d in if str_eq k key then rest else (k, v) ∷ rest

  pub find-put : (key : Str) (v : V) (d : Dict V) → find key (put key v d) ≡ some v
  unfolding find put
  find-put key v [] = rw (str_eq_refl key) refl
  find-put key v ((k, w) ∷ d) = ground (arith, str_eq_refl key, find-put key v d)

  pub find-put_other :
      (key other : Str) (v : V) (d : Dict V)
      → str_eq key other ≡ false
      → find other (put key v d) ≡ find other d
  unfolding find put
  find-put_other key other v [] h = rw (h) refl
  find-put_other key other v ((k, w) ∷ d) h =
      ground (arith, h, str_eq_left k key other, find-put_other key other v d h)

  pub find-erase : (key : Str) (d : Dict V) → find key (erase key d) ≡ none
  unfolding find erase
  find-erase key [] = refl
  find-erase key ((k, w) ∷ d) = ground (arith, find-erase key d)

  pub find-erase_other :
      (key other : Str) (d : Dict V)
      → str_eq key other ≡ false
      → find other (erase key d) ≡ find other d
  unfolding find erase
  find-erase_other key other [] h = refl
  find-erase_other key other ((k, w) ∷ d) h =
      ground (arith, h, str_eq_left k key other, find-erase_other key other d h)

  -- What holds of every entry.
  abbrev pub Entries {κ} : (Str → V → Type κ) → Dict V → Type κ
  Entries P [] = Unit {κ}
  Entries P ((k, v) ∷ d) = P k v × Entries P d
