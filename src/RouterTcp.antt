-- ===== src/RouterTcp.antt =====
-- crates/router-tcp/src/lib.rs: the forwarding of intercepted localhost connections.
pub mod Transparent
pub mod Choice
mod Examples
