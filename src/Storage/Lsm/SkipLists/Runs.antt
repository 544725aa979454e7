-- ===== src/Storage/Lsm/SkipLists/Runs.antt =====
-- The memtable over the skip list (pkg/storage/memtable.go) at concrete inputs.
use test_db.Prelude.{ℕ, ◌%◌, ◌==◌, Bool, false, [], ◌∷◌, Str, List}
use test_db.Storage.Row.{Row}
use test_db.Storage.Lsm.SkipLists.{SkipNode, MemTable, empty_table}

abbrev toss : ℕ → Bool
toss n = n % 3 == 0

abbrev row : ℕ → Row
row n = record { version = n; columns = []; tombstone = false }

abbrev key_a : Str
key_a = b'a' ∷ []

abbrev key_b : Str
key_b = b'b' ∷ []

abbrev nodes : List SkipNode
nodes =
    record { key = key_a; value = row 1; height = 2 }
    ∷ record { key = b'c' ∷ []; value = row 2; height = 1 }
    ∷ []

-- Two rows, the first of which stands in two levels.
abbrev table : MemTable
table = record empty_table { tree = record empty_table.tree { nodes = nodes; level = 2; size = 2 } }
