-- ===== src/RouterCore.antt =====
-- crates/router-core/src/lib.rs: compilation of a configuration into route tables, lookups, and
-- the engine that replaces the active snapshot.
pub mod Compile
pub mod Lookup
pub mod Engine
pub mod Total
pub mod Tables
pub mod Resolution
pub mod Browser
pub mod History
mod Examples
