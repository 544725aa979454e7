-- ===== src/Storage/Dictionary/Runs.antt =====
-- Test data of the dictionary encoding and runs on it.
use test_db.Prelude.{
  ◌≡◌, refl, true, false, List, [], ◌∷◌, arith, find, put, str_compare, put_le, get_le,
}
use test_db.Common.Types.{string, int64}
use test_db.Storage.Dictionary.{
  Cell, ok, only_string_type, index_out_of_range, ◌>>=◌, index_or_add, add_string, number_rows,
  index_width, null_marker_for_width, write_index, read_index, stored_indices, write_indices,
  zero_bytes, encode_dict, string_at, decode_index, decode_rows, decode_dict,
}
use test_db.Storage.Dictionary.RoundTrip.{forget_nulls, decode_dict-encode_dict}

abbrev colours : List Cell
colours = (false, 114 ∷ []) ∷ (true, 120 ∷ []) ∷ (false, 103 ∷ []) ∷ (false, 114 ∷ []) ∷ []

colours_encoded :
    encode_dict string colours
    ≡ ok (record {
      row_count = 4;
      bytes = 0 ∷ 255 ∷ 1 ∷ 0 ∷ [];
      dict = (114 ∷ []) ∷ (103 ∷ []) ∷ [];
    })
unfolding encode_dict number_rows add_string index_or_add find put index_width null_marker_for_width
    stored_indices write_indices write_index zero_bytes put_le str_compare
colours_encoded = refl

numbers_refused : encode_dict int64 colours ≡ only_string_type int64
unfolding encode_dict
numbers_refused = refl

corrupt_column :
    decode_dict (record { row_count = 1; bytes = 7 ∷ []; dict = (114 ∷ []) ∷ [] })
    ≡ index_out_of_range 7 1
unfolding decode_dict decode_rows read_index decode_index string_at index_width
    null_marker_for_width get_le
corrupt_column = refl

decode_dict-encode_dict_example :
    (encode_dict string colours >>= decode_dict) ≡ ok (forget_nulls colours)
decode_dict-encode_dict_example = decode_dict-encode_dict colours (omega arith)
