-- ===== src/Schema/Row.antt =====
-- The rows of the database tables (deepbookv3/crates/schema/src/models.rs).
pub mod Trading
pub mod Governance
pub mod MarginManager
pub mod MarginPool
pub mod MarginRegistry
pub mod Tpsl
pub mod Config
pub mod Api
