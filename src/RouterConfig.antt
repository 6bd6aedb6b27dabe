-- ===== src/RouterConfig.antt =====
-- crates/router-config/src/v1alpha1.rs: the router configuration schema and its validation.
pub mod Model
pub mod Net
pub mod Equality
pub mod Identifier
pub mod Validate
pub mod Resolve
pub mod Unique
