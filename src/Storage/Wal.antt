-- ===== src/Storage/Wal.antt =====
-- pkg/storage: the write-ahead log.
pub mod Codec
pub mod Recovery
