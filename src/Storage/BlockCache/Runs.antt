-- ===== src/Storage/BlockCache/Runs.antt =====
-- Test data of the block cache and runs on it.
use test_db.Prelude.{ℕ, ◌≡◌, refl, arith, none, some, List, [], ◌∷◌}
use test_db.Common.Types.{int64}
use test_db.Storage.BlockCache.{
  CacheKey, Decoded, int64s, strings, estimate_decoded_size, strings_size, nulls_size,
  new_block_cache, has, delete_item, entry_of, remove_entry, seg_keys, delete_seg, add_to_seg_index,
  under_last, last_to_front, swap_remove, store_seg, remove_from_seg_index, drop_entry, oldest,
  drop_oldest, evict, push_front, update, put_entry, put, look_found, look, move_to_front, touch,
  drop_found, drop_keys, invalidate,
}
use test_db.Storage.BlockCache.Keys.{keys}
use test_db.Storage.BlockCache.Sound.{IsSound}
use test_db.Storage.BlockCache.Reads.{look-put}
use test_db.Storage.BlockCache.History.{
  Call, touch_up, put_in, drop_segment, run, step, last_put, run-IsSound, look-run,
}

abbrev key : ℕ → ℕ → CacheKey
key s i = record { segment_id = s; column_idx = i }

abbrev column : ℕ → Decoded
column n = record { values = int64s (n ∷ n ∷ []); nulls = none; typ = int64 }

abbrev names : Decoded
names = record { values = strings ((65 ∷ 66 ∷ []) ∷ [] ∷ []); nulls = some 16; typ = int64 }

names_size : estimate_decoded_size names ≡ 132
unfolding estimate_decoded_size strings_size nulls_size
names_size = refl

-- Two columns of 80 bytes fit 170 bytes; the one that was read stays when a third comes.
abbrev calls : List Call
calls =
    put_in (key 2 0) (column 3)
    ∷ touch_up (key 1 0)
    ∷ put_in (key 1 1) (column 2)
    ∷ put_in (key 1 0) (column 1)
    ∷ []

least_recent_goes : keys (run calls (new_block_cache 170)).order ≡ key 2 0 ∷ key 1 0 ∷ []
unfolding run step new_block_cache put put_entry push_front evict drop_oldest drop_entry oldest
    update touch move_to_front has entry_of remove_entry delete_item estimate_decoded_size
    nulls_size
least_recent_goes = refl

segment_goes : keys (run (drop_segment 1 ∷ calls) (new_block_cache 170)).order ≡ key 2 0 ∷ []
unfolding run step new_block_cache put put_entry push_front evict drop_oldest drop_entry oldest
    update touch move_to_front has entry_of remove_entry delete_item estimate_decoded_size
    nulls_size invalidate drop_keys drop_found seg_keys delete_seg add_to_seg_index
    remove_from_seg_index swap_remove last_to_front under_last store_seg
segment_goes = refl

run-IsSound_example : IsSound (run calls (new_block_cache 170))
run-IsSound_example = run-IsSound calls 170

look-run_example : last_put (key 1 0) calls ≡ some (column 1)
unfolding look look_found run step new_block_cache put put_entry push_front evict drop_oldest
    drop_entry oldest update touch move_to_front has entry_of remove_entry delete_item
    estimate_decoded_size nulls_size
look-run_example = look-run (key 1 0) calls 170 (column 1) refl

look-put_example :
    (look (key 1 0) (put (key 1 0) (column 1) (new_block_cache 170))).0 ≡ some (column 1)
unfolding look look_found new_block_cache has entry_of estimate_decoded_size nulls_size
look-put_example = look-put (key 1 0) (column 1) (new_block_cache 170) refl (omega arith) refl
