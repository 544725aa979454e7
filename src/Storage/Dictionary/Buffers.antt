-- ===== src/Storage/Dictionary/Buffers.antt =====
-- writeIndex and readIndex: a buffer written row by row holds the rows' indices one after another.
use mathlib.Core.List.{append_assoc}
use test_db.Prelude.{
  ℕ, zero, suc, ◌+◌, ◌*◌, ◌%◌, ◌^◌, ◌≤◌, ◌<◌, ◌≡◌, refl, ap, ◌∙◌, List, [], ◌∷◌, ◌++◌, length,
  length-append, take-append, drop, drop-append, Bytes, put_le, length-put_le, get_le-put_le, arith,
}
use test_db.Storage.Dictionary.{ok, write_index, read_index, write_indices, zero_bytes}

unfoldable pub index_bytes : ℕ → List ℕ → Bytes
index_bytes w [] = []
index_bytes w (i ∷ is) = put_le w i ++ index_bytes w is

pub length-zero_bytes : (n : ℕ) → length (zero_bytes n) ≡ n
unfolding zero_bytes
length-zero_bytes zero = refl
length-zero_bytes (suc n) = omega (arith, length-zero_bytes n)

drop-append_more : (xs ys : Bytes) (w k : ℕ) → k ≡ length xs + w → drop k (xs ++ ys) ≡ drop w ys
drop-append_more [] ys w k h = ap (λ n. drop n ys) (omega (arith, h))
drop-append_more (x ∷ xs) ys w zero h = absurd (omega (arith, h))
drop-append_more (x ∷ xs) ys w (suc k) h = drop-append_more xs ys w k (omega (arith, h))

length-drop_some : (w n : ℕ) (ys : Bytes) → length ys ≡ w + n → length (drop w ys) ≡ n
length-drop_some zero n ys h = omega (arith, h)
length-drop_some (suc w) n [] h = omega (arith, h)
length-drop_some (suc w) n (y ∷ ys) h = length-drop_some w n ys (omega (arith, h))

write_index-append :
    (p z : Bytes) (row w i : ℕ)
    → length p ≡ row * w
    → row * w < 2 ^ 32
    → w ≤ length z
    → write_index (p ++ z) row w i ≡ ok ((p ++ put_le w i) ++ drop w z)
unfolding write_index
write_index-append p z row w i at room fits =
    let pos : (row * w) % 2 ^ 32 ≡ length p = omega (arith, at) in
    rw (pos) ground (
      arith,
      length-append p z,
      take-append p z,
      drop-append_more p z w (length p + w) refl,
      append_assoc p (put_le w i) (drop w z),
    )

pub write_indices-append :
    (w row : ℕ) (p z : Bytes) (is : List ℕ)
    → length p ≡ row * w
    → length z ≡ length is * w
    → (row + length is) * w < 2 ^ 32
    → write_indices w row (p ++ z) is ≡ ok (p ++ index_bytes w is)
unfolding write_indices index_bytes
write_indices-append w row p [] [] at size room = refl
write_indices-append w row p (b ∷ z) [] at size room = absurd (omega (arith, size))
write_indices-append w row p z (i ∷ is) at size room =
    let product : suc (length is) * w ≡ w + length is * w = omega arith in
    let next : suc row * w ≡ row * w + w = omega arith in
    let below : (suc row + length is) * w < 2 ^ 32 = omega (arith, room) in
    let here : row * w < 2 ^ 32 = omega (arith, room) in
    let tail : length (drop w z) ≡ length is * w =
      length-drop_some w (length is * w) z (omega (arith, size, product)) in
    rw (write_index-append p z row w i at here (omega (arith, size, product))) (
      write_indices-append w (suc row) (p ++ put_le w i) (drop w z) is
        (omega (arith, length-append p (put_le w i), length-put_le w i, at, next)) tail below
      ∙ ap ok (append_assoc p (put_le w i) (index_bytes w is)))

pub read_index-append :
    (p rest : Bytes) (row w i : ℕ)
    → length p ≡ row * w
    → row * w < 2 ^ 32
    → i < 256 ^ w
    → read_index (p ++ (put_le w i ++ rest)) row w ≡ ok i
unfolding read_index
read_index-append p rest row w i at room small =
    let pos : (row * w) % 2 ^ 32 ≡ length p = omega (arith, at) in
    rw (pos) ground (
      arith,
      length-append p (put_le w i ++ rest),
      length-append (put_le w i) rest,
      length-put_le w i,
      drop-append p (put_le w i ++ rest),
      get_le-put_le w i rest small,
    )
