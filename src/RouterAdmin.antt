-- ===== src/RouterAdmin.antt =====
-- crates/apmpr-router-admin/src/lib.rs: the client of the administration sockets of routers.
pub mod Client
pub mod Exchange
mod Examples
