-- ===== src/Storage.antt =====
-- pkg/storage and its in-memory sibling pkg/storage/memory.
pub mod Row
pub mod Memory
pub mod Wal
pub mod Lsm
pub mod Dictionary
pub mod RunLength
pub mod BlockCache
