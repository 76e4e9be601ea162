-- ===== src/Schema/Row/Tpsl.antt =====
-- deepbookv3/crates/schema/src/models.rs: rows of the database tables.
use rain_protocol.Prelude.{ℕ, String, Bool, Option}
use rain_protocol.Prelude.Int.{ℤ}

pub record ConditionalOrderEvent : Type 0 where
  pub event_digest : String
  pub digest : String
  pub sender : String
  pub checkpoint : ℤ
  pub checkpoint_timestamp_ms : ℤ
  pub package_id : String
  pub event_type : String
  pub manager_id : String
  pub pool_id : Option String
  pub conditional_order_id : ℤ
  pub trigger_below_price : Bool
  pub trigger_price : ℕ
  pub is_limit_order : Bool
  pub client_order_id : ℤ
  pub order_type : ℤ
  pub self_matching_option : ℤ
  pub price : ℕ
  pub quantity : ℕ
  pub is_bid : Bool
  pub pay_with_deep : Bool
  pub expire_timestamp : ℤ
  pub onchain_timestamp : ℤ
