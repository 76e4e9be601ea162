-- ===== src/Indexer/Handlers.antt =====
-- The handlers that `define_handler!` generates, by the Move module of their events.
pub mod MarginPool
pub mod BalanceManager
pub mod Tpsl
pub mod MarginRegistry
pub mod Collateral
pub mod Vault
pub mod MarginManager
pub mod MarginPoolFees
pub mod OrderInfo
pub mod DeepPrice
pub mod State
pub mod ProtocolFees
pub mod Pool
pub mod PoolEvents
pub mod Config
pub mod Keys
