-- ===== src/Index.antt =====
-- pkg/index: the indexes over the segments of a table.
pub mod Primary
pub mod Sparse
