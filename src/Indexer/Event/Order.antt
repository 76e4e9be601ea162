-- ===== src/Indexer/Event/Order.antt =====
-- deepbookv3/crates/indexer/src/models.rs: the Move events of the module `order`.
use rain_protocol.Prelude.{ℕ, Bool}
use rain_protocol.Indexer.Sdk.{Bytes}

pub record OrderCanceled : Type 0 where
  pub balance_manager_id : Bytes
  pub pool_id : Bytes
  pub order_id : ℕ
  pub client_order_id : ℕ
  pub trader : Bytes
  pub price : ℕ
  pub is_bid : Bool
  pub original_quantity : ℕ
  pub base_asset_quantity_canceled : ℕ
  pub timestamp : ℕ

pub record OrderModified : Type 0 where
  pub balance_manager_id : Bytes
  pub pool_id : Bytes
  pub order_id : ℕ
  pub client_order_id : ℕ
  pub trader : Bytes
  pub price : ℕ
  pub is_bid : Bool
  pub previous_quantity : ℕ
  pub filled_quantity : ℕ
  pub new_quantity : ℕ
  pub timestamp : ℕ
