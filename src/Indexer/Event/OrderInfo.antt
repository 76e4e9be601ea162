-- ===== src/Indexer/Event/OrderInfo.antt =====
-- deepbookv3/crates/indexer/src/models.rs: the Move events of the module `order_info`.
use rain_protocol.Prelude.{ℕ, Bool}
use rain_protocol.Indexer.Sdk.{Bytes}

pub record OrderFilled : Type 0 where
  pub pool_id : Bytes
  pub maker_order_id : ℕ
  pub taker_order_id : ℕ
  pub maker_client_order_id : ℕ
  pub taker_client_order_id : ℕ
  pub price : ℕ
  pub taker_is_bid : Bool
  pub taker_fee : ℕ
  pub taker_fee_is_deep : Bool
  pub maker_fee : ℕ
  pub maker_fee_is_deep : Bool
  pub base_quantity : ℕ
  pub quote_quantity : ℕ
  pub maker_balance_manager_id : Bytes
  pub taker_balance_manager_id : Bytes
  pub timestamp : ℕ

pub record OrderPlaced : Type 0 where
  pub balance_manager_id : Bytes
  pub pool_id : Bytes
  pub order_id : ℕ
  pub client_order_id : ℕ
  pub trader : Bytes
  pub price : ℕ
  pub is_bid : Bool
  pub placed_quantity : ℕ
  pub expire_timestamp : ℕ
  pub timestamp : ℕ

pub record OrderExpired : Type 0 where
  pub balance_manager_id : Bytes
  pub pool_id : Bytes
  pub order_id : ℕ
  pub client_order_id : ℕ
  pub trader : Bytes
  pub price : ℕ
  pub is_bid : Bool
  pub original_quantity : ℕ
  pub base_asset_quantity_canceled : ℕ
  pub timestamp : ℕ
