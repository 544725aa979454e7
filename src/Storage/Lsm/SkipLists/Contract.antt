-- ===== src/Storage/Lsm/SkipLists/Contract.antt =====
-- What a memtable shows after a Put.
use test_db.Storage.Row.{Row}
