-- ===== src/Indexer.antt =====
-- The indexer (deepbookv3/crates/indexer): it turns checkpoints into database rows.
pub mod Sdk
pub mod Config
pub mod MoveStruct
pub mod Chain
pub mod Event
pub mod Handler
pub mod ConfigJson
pub mod Handlers
pub mod Process
pub mod OrderUpdate
pub mod Commit
pub mod TradeParams
pub mod Pipelines
