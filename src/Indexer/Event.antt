-- ===== src/Indexer/Event.antt =====
-- The Move events that the indexer decodes, by Move module.
pub mod BalanceManager
pub mod Order
pub mod OrderInfo
pub mod Vault
pub mod DeepPrice
pub mod State
pub mod Governance
pub mod Pool
pub mod MarginManager
pub mod MarginPool
pub mod ProtocolFees
pub mod MarginRegistry
pub mod Tpsl
pub mod TypeName
