-- ===== src/Daemon.antt =====
-- crates/apmpr-daemon/src/server.rs: the service that runs operations.
pub mod Live
pub mod Loop
pub mod Binding
pub mod Leaving
pub mod Accounting
mod Examples
pub mod Events
