-- ===== src/Storage/RunLength/Runs.antt =====
-- Test data of the run-length encoding and runs on it.
use test_db.Prelude.{◌≡◌, refl, true, false, none, some, List, [], ◌∷◌, arith}
use test_db.Common.Types.{string, int64, is_int_family}
use test_db.Storage.RunLength.{IntCell, collect_runs, push_row, encode_rle}
use test_db.Storage.RunLength.Rows.{zero_nulls}
use test_db.Storage.RunLength.RoundTrip.{decoded, decode_rle-encode_rle}

abbrev readings : List IntCell
readings = (false, 7) ∷ (false, 7) ∷ (true, 9) ∷ (false, 0) ∷ (false, 0) ∷ []

readings_runs :
    collect_runs readings []
    ≡ record { value = 7; count = 2; is_null = false }
      ∷ record { value = 0; count = 1; is_null = true }
      ∷ record { value = 0; count = 2; is_null = false }
      ∷ []
unfolding collect_runs push_row
readings_runs = refl

strings_refused : encode_rle string readings ≡ none
unfolding encode_rle is_int_family
strings_refused = refl

decode_rle-encode_rle_example : decoded (encode_rle int64 readings) ≡ some (zero_nulls readings)
unfolding is_int_family
decode_rle-encode_rle_example =
    decode_rle-encode_rle int64 readings refl (omega arith)
      (omega arith, (omega arith, (omega arith, (omega arith, (omega arith, tt)))))
