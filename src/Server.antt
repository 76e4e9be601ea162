-- ===== src/Server.antt =====
-- The API server (deepbookv3/crates/server): HTTP handlers over the indexed tables.
pub mod Error
pub mod Params
pub mod Reader
pub mod Events
pub mod Trades
pub mod Orders
pub mod TradeId
pub mod Decimals
pub mod Orderbook
pub mod Status
pub mod Volume
pub mod Ticker
pub mod PriceChange
pub mod Interval
pub mod Admin
pub mod Writer
pub mod Deposits
pub mod Poller
pub mod MarginRpc
pub mod MarginMetrics
pub mod NetDeposits
