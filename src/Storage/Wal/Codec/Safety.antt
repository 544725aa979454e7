-- ===== src/Storage/Wal/Codec/Safety.antt =====
-- The readers of the log on bytes that no writer wrote, and on the values it cannot hold.
use mathlib.Core.Path.{subst}
use test_db.Prelude.{
  length-drop, ℕ, ◌+◌, ◌≤◌, ◌≡◌, refl, Bool, true, false, [], ◌∷◌, arith, Str, length, take, drop,
  ltb, if◌then◌else◌, Bytes, get_le,
}
use test_db.Common.Types.{DataType, Value, bool, string, null, unknown, of_number}
use test_db.Storage.Wal.Codec.{
  Error, Result, ok, err, ◌>>=◌, read_fixed, read_string_value, read_typed_value, read_tagged,
  read_value_binary,
}

-- A reader's result that takes no more bytes than there are.
abbrev pub TakesAtMost {ℓ} : {A : Type ℓ} → ℕ → Result (A × ℕ) → Type 0
TakesAtMost limit (ok p) = p.1 ≤ limit
TakesAtMost limit (err e) = Unit

guarded {ℓ} :
    {A : Type ℓ} (limit : ℕ) (b : Bool) (e : Error) (r : Result (A × ℕ))
    → (b ≡ false → TakesAtMost limit r)
    → TakesAtMost limit (if b then err e else r)
guarded limit true e r f = tt
guarded limit false e r f = f refl

read_fixed_lem :
    (n : ℕ) (f : Bytes → Value) (bs : Bytes) → TakesAtMost (length bs) (read_fixed n f bs)
unfolding read_fixed
read_fixed_lem n f bs = guarded (length bs) (ltb (length bs) n) _ (ok (f bs, n)) (λ e. ground arith)

read_string_lem : (bs : Bytes) → TakesAtMost (length bs) (read_string_value bs)
unfolding read_string_value
read_string_lem bs =
    guarded (length bs) (ltb (length bs) 2) _ _
      (λ e. guarded (length bs) (ltb (length bs) (2 + get_le 2 bs)) _ _ (λ f. ground arith))

read_typed_lem : (t : DataType) (bs : Bytes) → TakesAtMost (length bs) (read_typed_value t bs)
unfolding read_typed_value
read_typed_lem string bs = read_string_lem bs
read_typed_lem null bs = tt
read_typed_lem (unknown n) bs = tt
read_typed_lem bool bs = search read_fixed_lem
read_typed_lem _ bs = search read_fixed_lem

-- The same for the reader of a whole column.
abbrev pub ReadsWithin : ℕ → Result (Str × Value × ℕ) → Type 0
ReadsWithin limit (ok p) = p.2 ≤ limit
ReadsWithin limit (err e) = Unit

guarded_column :
    (limit : ℕ) (b : Bool) (e : Error) (r : Result (Str × Value × ℕ))
    → (b ≡ false → ReadsWithin limit r)
    → ReadsWithin limit (if b then err e else r)
guarded_column limit true e r f = tt
guarded_column limit false e r f = f refl

then_lem :
    (name : Str) (used limit : ℕ) (flag : Bool) (r : Result (Value × ℕ))
    → TakesAtMost limit r
    → ReadsWithin (used + limit) (r >>= λ p. ok (name, record (p.0) { valid = flag }, used + p.1))
then_lem name used limit flag (ok p) h = omega arith
then_lem name used limit flag (err e) h = tt

read_tagged_lem :
    (name : Str) (used : ℕ) (bs : Bytes) → ReadsWithin (used + length bs) (read_tagged name used bs)
unfolding read_tagged
read_tagged_lem name used [] = tt
read_tagged_lem name used (t ∷ []) = tt
read_tagged_lem name used (t ∷ f ∷ bs) =
    subst (λ n. ReadsWithin n (read_tagged name used (t ∷ f ∷ bs))) (omega arith)
      (then_lem name (used + 2) (length bs) _ (read_typed_value (of_number t) bs)
        (read_typed_lem (of_number t) bs))

-- Whatever the bytes are, a column that is read lies within them: the reader never reports more bytes
-- than it was given.
pub read_value_binary-ReadsWithin : (bs : Bytes) → ReadsWithin (length bs) (read_value_binary bs)
unfolding read_value_binary
read_value_binary-ReadsWithin bs =
    let n = get_le 2 bs in
    guarded_column (length bs) (ltb (length bs) 2) _ _ (λ e.
      guarded_column (length bs) (ltb (length (drop 2 bs)) n) _ _ (λ f.
        subst (λ m. ReadsWithin m (read_tagged (take n (drop 2 bs)) (2 + n) (drop n (drop 2 bs))))
          (omega (
            arith,
            length-drop {0} 2 bs (ground (arith, e)),
            length-drop {0} n (drop 2 bs) (ground (arith, f)),
          ))
          (read_tagged_lem (take n (drop 2 bs)) (2 + n) (drop n (drop 2 bs)))))
