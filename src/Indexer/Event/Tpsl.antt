-- ===== src/Indexer/Event/Tpsl.antt =====
-- deepbookv3/crates/indexer/src/models.rs: the Move events of the module `tpsl`.
use rain_protocol.Prelude.{ℕ, Bool, Option}
use rain_protocol.Indexer.Sdk.{Bytes}

pub record Condition : Type 0 where
  pub trigger_below_price : Bool
  pub trigger_price : ℕ

pub record PendingOrder : Type 0 where
  pub is_limit_order : Bool
  pub client_order_id : ℕ
  pub order_type : Option ℕ
  pub self_matching_option : ℕ
  pub price : Option ℕ
  pub quantity : ℕ
  pub is_bid : Bool
  pub pay_with_deep : Bool
  pub expire_timestamp : Option ℕ

pub record ConditionalOrder : Type 0 where
  pub conditional_order_id : ℕ
  pub condition : Condition
  pub pending_order : PendingOrder

pub record ConditionalOrderAdded : Type 0 where
  pub manager_id : Bytes
  pub conditional_order_id : ℕ
  pub conditional_order : ConditionalOrder
  pub timestamp : ℕ

pub record ConditionalOrderCancelled : Type 0 where
  pub manager_id : Bytes
  pub conditional_order_id : ℕ
  pub conditional_order : ConditionalOrder
  pub timestamp : ℕ

pub record ConditionalOrderExecuted : Type 0 where
  pub manager_id : Bytes
  pub pool_id : Bytes
  pub conditional_order_id : ℕ
  pub conditional_order : ConditionalOrder
  pub timestamp : ℕ

pub record ConditionalOrderInsufficientFunds : Type 0 where
  pub manager_id : Bytes
  pub conditional_order_id : ℕ
  pub conditional_order : ConditionalOrder
  pub timestamp : ℕ
