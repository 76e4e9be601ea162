-- ===== src/Server/Events.antt =====
-- deepbookv3/crates/server/src/server.rs: the endpoints that return the rows of one margin table.
pub mod MarginManager
pub mod MarginPool
pub mod MarginFees
pub mod MarginRegistry
pub mod Route
pub mod Laws
