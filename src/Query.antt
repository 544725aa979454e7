-- ===== src/Query.antt =====
-- The query layer (pkg/query).
pub mod Compare
pub mod Ast
pub mod Arith
pub mod Eval
pub mod Folding
pub mod Predicates
mod Runs
