-- ===== src/Schema.antt =====
-- deepbookv3/crates/schema.
pub mod Row
