-- ===== src/Common.antt =====
-- pkg/common: the types that every other package shares.
pub mod Float
pub mod Types
pub mod Printing
pub mod Bitmap
