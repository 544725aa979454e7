-- ===== src/Storage/Dictionary.antt =====
-- pkg/storage/encoding_dict.go: string columns as a dictionary and one index per row.
pub mod Numbering
pub mod Buffers
pub mod RoundTrip
mod Runs
use test_db.Prelude.{
  ℕ, zero, suc, ◌+◌, ◌*◌, ◌%◌, ◌^◌, Bool, true, false, Option, none, some, List, [], ◌∷◌, ◌++◌, Str,
  Dict, find, put, length, get_elem?, take, drop, ltb, leb, ◌==◌, if◌then◌else◌, Bytes, put_le,
  get_le,
}
use test_db.Common.Types.{DataType, string}

-- A row of the column: nulls.Get(i) and strs[i].
abbrev pub Cell : Type 0
Cell = Bool × Str

-- The fields that this encoding fills.
pub record EncodedColumn : Type 0 where
  pub row_count : ℕ
  pub bytes : Bytes
  pub dict : List Str

-- `panics` stands for an access outside a slice.
pub data Outcome {ℓ} (A : Type ℓ) : Type ℓ where
  ok : A → Outcome A
  only_string_type : DataType → Outcome A
  index_out_of_range : ℕ → ℕ → Outcome A
  panics : Outcome A

infixl 5 ◌>>=◌
abbrev pub ◌>>=◌ {ℓ κ} : {A : Type ℓ} {B : Type κ} → Outcome A → (A → Outcome B) → Outcome B
ok a >>= f = f a
only_string_type typ >>= f = only_string_type typ
index_out_of_range i n >>= f = index_out_of_range i n
panics >>= f = panics

-- dictMap and dict of the first loop.
pub record StringTable : Type 0 where
  dict_map : Dict ℕ
  dict : List Str

abbrev pub none_numbered : StringTable
none_numbered = record { dict_map = []; dict = [] }

-- The index that `dictMap[strs[i]]` gave, or a new one.
unfoldable pub index_or_add : Str → StringTable → Option ℕ → ℕ × StringTable
index_or_add s b (some i) = (i, b)
index_or_add s b none =
    let i = length b.dict % 2 ^ 32 in
    (i, record { dict_map = put s i b.dict_map; dict = b.dict ++ s ∷ [] })

unfoldable pub add_string : Str → StringTable → ℕ × StringTable
add_string s b = index_or_add s b (find s b.dict_map)

-- The first loop: the indices of the rows, 0 at a null, and the dictionary they grow.
unfoldable pub number_rows : List Cell → StringTable → List ℕ × StringTable
number_rows [] b = ([], b)
number_rows ((true, s) ∷ cells) b = let rest = number_rows cells b in (0 ∷ rest.0, rest.1)
number_rows ((false, s) ∷ cells) b =
    let one = add_string s b in let rest = number_rows cells one.1 in (one.0 ∷ rest.0, rest.1)

unfoldable pub index_width : ℕ → ℕ
index_width dict_size =
    let size = (dict_size + 1) % 2 ^ 32 in
    if leb size 256 then 1 else (if leb size 65536 then 2 else 4)

unfoldable pub null_marker_for_width : ℕ → ℕ
null_marker_for_width width = if width == 1 then 255 else (if width == 2 then 65535 else 4294967295)

unfoldable pub write_index : Bytes → ℕ → ℕ → ℕ → Outcome Bytes
write_index buf row width idx =
    let pos = (row * width) % 2 ^ 32 in
    if ltb (length buf) (pos + width)
    then panics
    else ok (take pos buf ++ (put_le width idx ++ drop (pos + width) buf))

unfoldable pub read_index : Bytes → ℕ → ℕ → Outcome ℕ
read_index buf row width =
    let pos = (row * width) % 2 ^ 32 in
    if ltb (length buf) (pos + width) then panics else ok (get_le width (drop pos buf))

-- What the second loop writes for each row.
unfoldable pub stored_indices : ℕ → List Cell → List ℕ → List ℕ
stored_indices marker ((null, s) ∷ cells) (i ∷ is) =
    (if null then marker else i) ∷ stored_indices marker cells is
stored_indices marker _ _ = []

unfoldable pub write_indices : ℕ → ℕ → Bytes → List ℕ → Outcome Bytes
write_indices width row buf [] = ok buf
write_indices width row buf (i ∷ is) =
    write_index buf row width i >>= λ buf'. write_indices width (suc row) buf' is

unfoldable pub zero_bytes : ℕ → Bytes
zero_bytes zero = []
zero_bytes (suc n) = 0 ∷ zero_bytes n

unfoldable pub encode_dict : DataType → List Cell → Outcome EncodedColumn
encode_dict string cells =
    let numbered = number_rows cells none_numbered in
    let width = index_width (length numbered.1.dict % 2 ^ 32) in
    let indices = stored_indices (null_marker_for_width width) cells numbered.0 in
    write_indices width 0 (zero_bytes ((length cells * width) % 2 ^ 32)) indices >>= λ buf.
    ok (record { row_count = length cells; bytes = buf; dict = numbered.1.dict })
encode_dict typ cells = only_string_type typ

unfoldable pub string_at : ℕ → ℕ → Option Str → Outcome Cell
string_at idx n (some s) = ok (false, s)
string_at idx n none = index_out_of_range idx n

-- The `switch` of decodeDict.
unfoldable pub decode_index : ℕ → List Str → ℕ → Outcome Cell
decode_index marker dict idx =
    if idx == marker then ok (true, []) else string_at idx (length dict) (get_elem? dict idx)

unfoldable pub decode_rows : ℕ → List Str → Bytes → ℕ → ℕ → Outcome (List Cell)
decode_rows width dict buf row zero = ok []
decode_rows width dict buf row (suc n) = read_index buf row width >>= λ idx.
    decode_index (null_marker_for_width width) dict idx >>= λ cell.
    decode_rows width dict buf (suc row) n >>= λ cells. ok (cell ∷ cells)

unfoldable pub decode_dict : EncodedColumn → Outcome (List Cell)
decode_dict enc =
    decode_rows (index_width (length enc.dict % 2 ^ 32)) enc.dict enc.bytes 0 enc.row_count
