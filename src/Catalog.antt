-- ===== src/Catalog.antt =====
-- pkg/catalog.
pub mod Schema
pub mod Changes
pub mod Shape
pub mod Parts
pub mod Outcomes
pub mod Contract
mod Runs
