-- ===== src/Tests.antt =====
-- Concrete runs of the model: a checkpoint, requests, and small databases, at which the theorems'
-- hypotheses hold.
pub mod Sdk
pub mod Tables
pub mod Reader
mod Trades
mod Config
mod OrderStatuses
mod Ticker
mod NetRequest
mod Pipelines
mod Margin
pub mod Data
mod Indexer
mod Orders
mod Transactions
mod Server
mod Interval
mod Poller
mod NetDeposits
mod Admin
