-- ===== src/RouterHost.antt =====
-- crates/apmpr-router: the process that holds a route engine, its TCP listeners and the
-- administration socket.
pub mod Process
pub mod Observe
pub mod Control
pub mod Report
pub mod Execute
pub mod Sync
pub mod Start
pub mod Admin
pub mod Examples
