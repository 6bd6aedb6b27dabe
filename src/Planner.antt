-- ===== src/Planner.antt =====
-- crates/apmpr-planner/src/lib.rs: the checks of a bundle before its artifacts are generated.
pub mod Model
pub mod Cycle
pub mod Local
pub mod Expanded
pub mod Overlay
mod Examples
