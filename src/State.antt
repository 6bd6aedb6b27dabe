-- ===== src/State.antt =====
-- crates/apmpr-state/src/lib.rs: the local state store, on the tables of its SQLite database.
pub mod Error
pub mod Locks
pub mod Apply
pub mod Operations
pub mod Context
pub mod Reconcile
pub mod Registry
mod Examples
mod TableExamples
mod RouterExamples
