-- ===== src/Storage/Lsm.antt =====
-- The LSM engine of pkg/storage.
pub mod Merge
pub mod Segment
pub mod PointReads
pub mod Engine
pub mod Batch
pub mod Pruning
pub mod Compaction
pub mod SkipLists
mod Runs
