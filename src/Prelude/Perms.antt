-- ===== src/Prelude/Perms.antt =====
-- A filter by a Boolean test keeps permutations.
use mathlib.Core.List.{Perm, Permᴰ}
use mathlib.Core.List.Permᴰ
use mathlib.Core.Logic.{inl, inr, ∥∥₁_map}
use mathlib.Core.Path.{subst₂}
use mathlib.Core.Bool.{Bool}
use mathlib.Core.List.{List, ◌∷◌}
use test_db.Prelude.Booleans.{Bool-cases}
use test_db.Prelude.Lists.{filter}

module _ {ℓ} {A : Type ℓ} (p : A → Bool) where
  cons_filter :
      (a : A) (xs ys : List A)
      → Permᴰ (filter p xs) (filter p ys)
      → Permᴰ (filter p (a ∷ xs)) (filter p (a ∷ ys))
  cons_filter a xs ys d = elim (Bool-cases (p a)) [
    | inl h ↦ rw h (Permᴰ.cons (λ i. a) d)
    | inr h ↦ rw h d
  ]

  swap_filter : (a b : A) (xs : List A) → Permᴰ (filter p (a ∷ b ∷ xs)) (filter p (b ∷ a ∷ xs))
  swap_filter a b xs = elim (Bool-cases (p a)) [
    | inl h ↦ rw h (elim (Bool-cases (p b)) [
      | inl k ↦ rw k (Permᴰ.swap (λ i. a) (λ i. b))
      | inr k ↦ rw k (Permᴰ.cons (λ i. a) (Permᴰ.refl _))
    ])
    | inr h ↦ rw h (elim (Bool-cases (p b)) [
      | inl k ↦ rw k (Permᴰ.cons (λ i. b) (Permᴰ.refl _))
      | inr k ↦ rw k (Permᴰ.refl _)
    ])
  ]

  filter-permᴰ : {xs ys : List A} → Permᴰ xs ys → Permᴰ (filter p xs) (filter p ys)
  filter-permᴰ Permᴰ.nil = Permᴰ.nil
  filter-permᴰ (Permᴰ.cons {a = a} {l₁ = xs} {l₂ = ys} e d) =
      subst₂ (λ c d. Permᴰ (filter p (a ∷ xs)) (filter p (c ∷ d))) e (λ i. ys)
        (cons_filter a xs ys (filter-permᴰ d))
  filter-permᴰ (Permᴰ.swap {a = a} {b = b} {l = l} e f) =
      subst₂ (λ c d. Permᴰ (filter p (a ∷ b ∷ l)) (filter p (d ∷ c ∷ l))) e f (swap_filter a b l)
  filter-permᴰ (Permᴰ.trans d d') = Permᴰ.trans (filter-permᴰ d) (filter-permᴰ d')

  pub filter-perm : {xs ys : List A} → Perm xs ys → Perm (filter p xs) (filter p ys)
  filter-perm d = ∥∥₁_map d filter-permᴰ
