-- ===== src/Storage/Dictionary/RoundTrip.antt =====
-- decodeDict after encodeDict.
use mathlib.Core.List.{append_assoc}
use test_db.Prelude.{
  ℕ, zero, suc, ◌+◌, ◌*◌, ◌%◌, ◌^◌, ◌≤◌, ◌<◌, ◌≡◌, refl, ap, sym, ◌∙◌, true, false, some, List, [],
  ◌∷◌, ◌++◌, Str, length, get_elem?, leb, ◌==◌, Bool-cases, inl, inr, Bytes, put_le, length-append,
  length-put_le, arith,
}
use test_db.Common.Types.{string}
use test_db.Storage.Dictionary.{
  Cell, ok, ◌>>=◌, none_numbered, number_rows, index_width, null_marker_for_width, stored_indices,
  zero_bytes, encode_dict, string_at, decode_index, decode_rows, decode_dict,
}
use test_db.Storage.Dictionary.Numbering.{AreIndexed, get_elem?-below, number_rows-AreIndexed}
use test_db.Storage.Dictionary.Buffers.{
  index_bytes, length-zero_bytes, write_indices-append, read_index-append,
}

-- The string of a null is not kept.
unfoldable pub forget_nulls : List Cell → List Cell
forget_nulls [] = []
forget_nulls ((true, s) ∷ cells) = (true, []) ∷ forget_nulls cells
forget_nulls ((false, s) ∷ cells) = (false, s) ∷ forget_nulls cells

-- An index of the dictionary fits its width and is not the marker, which fits too.
abbrev Room : ℕ → ℕ → Type 0
Room w n = (null_marker_for_width w < 256 ^ w) × (n ≤ null_marker_for_width w) × (w ≤ 4)

index_width-Room : (n : ℕ) → n < 2 ^ 30 → Room (index_width n) n
unfolding index_width null_marker_for_width
index_width-Room n small =
    let size : (n + 1) % 2 ^ 32 ≡ n + 1 = omega arith in
    elim (Bool-cases (leb (n + 1) 256)) [
      | inl one ↦ rw (size, one) (omega arith, ground arith, omega arith)
      | inr more ↦ elim (Bool-cases (leb (n + 1) 65536)) [
        | inl two ↦ rw (size, more, two) (omega arith, ground arith, omega arith)
        | inr four ↦ rw (size, more, four) (omega arith, omega arith, omega arith)
      ]
    ]

length-stored_indices :
    (marker : ℕ) (dict : List Str) (cells : List Cell) (is : List ℕ)
    → AreIndexed dict cells is
    → length (stored_indices marker cells is) ≡ length cells
unfolding stored_indices
length-stored_indices marker dict [] [] h = refl
length-stored_indices marker dict [] (i ∷ is) h = absurd h
length-stored_indices marker dict ((true, s) ∷ cells) [] h = absurd h
length-stored_indices marker dict ((false, s) ∷ cells) [] h = absurd h
length-stored_indices marker dict ((true, s) ∷ cells) (i ∷ is) h =
    omega (arith, length-stored_indices marker dict cells is h)
length-stored_indices marker dict ((false, s) ∷ cells) (i ∷ is) h =
    omega (arith, length-stored_indices marker dict cells is h.1)

decode_index-null : (marker : ℕ) (dict : List Str) → decode_index marker dict marker ≡ ok (true, [])
unfolding decode_index
decode_index-null marker dict = ground arith

decode_index-string :
    (marker i : ℕ) (dict : List Str) (s : Str)
    → get_elem? dict i ≡ some s
    → length dict ≤ marker
    → decode_index marker dict i ≡ ok (false, s)
unfolding decode_index string_at
decode_index-string marker i dict s h room =
    let below = get_elem?-below dict i s h in
    let apart : (i == marker) ≡ false = ground (arith, below, room) in rw (apart, h) refl

-- The places of the rows in the buffer.
row_start : (row n w : ℕ) → (row + suc n) * w < 2 ^ 32 → row * w < 2 ^ 32
row_start row n w h = omega (arith, h)

row_next : (row n w : ℕ) → (row + suc n) * w < 2 ^ 32 → (suc row + n) * w < 2 ^ 32
row_next row n w h = omega (arith, h)

row_end : (p : Bytes) (row w i : ℕ) → length p ≡ row * w → length (p ++ put_le w i) ≡ suc row * w
row_end p row w i at = omega (arith, length-append p (put_le w i), length-put_le w i, at)

decode_rows-step :
    (w : ℕ) (dict : List Str) (cell : Cell) (i : ℕ) (p rest : Bytes) (row n : ℕ) (cells : List Cell)
    → length p ≡ row * w
    → row * w < 2 ^ 32
    → i < 256 ^ w
    → decode_index (null_marker_for_width w) dict i ≡ ok cell
    → decode_rows w dict ((p ++ put_le w i) ++ rest) (suc row) n ≡ ok cells
    → decode_rows w dict (p ++ (put_le w i ++ rest)) row (suc n) ≡ ok (cell ∷ cells)
unfolding decode_rows
decode_rows-step w dict cell i p rest row n cells at room small one others =
    rw (read_index-append p rest row w i at room small, one)
      (ap (λ o. o >>= λ cs. ok (cell ∷ cs))
        (ap (λ b. decode_rows w dict b (suc row) n) (sym (append_assoc p (put_le w i) rest))
          ∙ others))

decode_rows-stored :
    (w : ℕ) (dict : List Str) (cells : List Cell) (is : List ℕ) (p : Bytes) (row : ℕ)
    → Room w (length dict)
    → AreIndexed dict cells is
    → length p ≡ row * w
    → (row + length cells) * w < 2 ^ 32
    → decode_rows w dict
        (p ++ index_bytes w (stored_indices (null_marker_for_width w) cells is))
        row
        (length cells)
      ≡ ok (forget_nulls cells)
unfolding stored_indices index_bytes forget_nulls decode_rows
decode_rows-stored w dict [] [] p row fit h at room = refl
decode_rows-stored w dict [] (i ∷ is) p row fit h at room = absurd h
decode_rows-stored w dict ((true, s) ∷ cells) [] p row fit h at room = absurd h
decode_rows-stored w dict ((false, s) ∷ cells) [] p row fit h at room = absurd h
decode_rows-stored w dict ((true, s) ∷ cells) (i ∷ is) p row fit h at room =
    let marker = null_marker_for_width w in
    decode_rows-step w dict (true, []) marker p _ row (length cells) (forget_nulls cells) at
      (row_start row (length cells) w room) fit.0 (decode_index-null marker dict)
      (decode_rows-stored w dict cells is (p ++ put_le w marker) (suc row) fit h
        (row_end p row w marker at) (row_next row (length cells) w room))
decode_rows-stored w dict ((false, s) ∷ cells) (i ∷ is) p row fit h at room =
    let below = get_elem?-below dict i s h.0 in
    decode_rows-step w dict (false, s) i p _ row (length cells) (forget_nulls cells) at
      (row_start row (length cells) w room) (omega (arith, below, fit.0, fit.1))
      (decode_index-string (null_marker_for_width w) i dict s h.0 fit.1)
      (decode_rows-stored w dict cells is (p ++ put_le w i) (suc row) fit h.1 (row_end p row w i at)
        (row_next row (length cells) w room))

scaled : (n w : ℕ) → w ≤ 4 → n * w ≤ n * 4
scaled zero w h = omega arith
scaled (suc n) w h = omega (arith, scaled n w h)

-- Decoding the column that a string column was encoded into gives the column back, less the
-- strings under nulls, when four bytes per row stay below 2 ^ 32.
pub decode_dict-encode_dict :
    (cells : List Cell)
    → length cells * 4 < 2 ^ 32
    → (encode_dict string cells >>= decode_dict) ≡ ok (forget_nulls cells)
unfolding encode_dict decode_dict
decode_dict-encode_dict cells small =
    let numbered = number_rows-AreIndexed cells (omega (arith, small)) in
    let dict = (number_rows cells none_numbered).1.dict in
    let is = (number_rows cells none_numbered).0 in
    let n : length dict % 2 ^ 32 ≡ length dict = omega (arith, numbered.1, small) in
    let w = index_width (length dict) in
    let fit = index_width-Room (length dict) (omega (arith, numbered.1, small)) in
    let size = scaled (length cells) w fit.2 in
    let whole : (length cells * w) % 2 ^ 32 ≡ length cells * w = omega (arith, size, small) in
    let stored = stored_indices (null_marker_for_width w) cells is in
    let count = length-stored_indices (null_marker_for_width w) dict cells is numbered.0 in
    let written =
      write_indices-append w 0 [] (zero_bytes (length cells * w)) stored (omega arith)
        (length-zero_bytes (length cells * w) ∙ ap (λ k. k * w) (sym count))
        (omega (arith, ap (λ k. k * w) count, size, small)) in
    rw (n, whole, written, n)
      (decode_rows-stored w dict cells is [] 0 fit numbered.0 (omega arith)
        (omega (arith, size, small)))
