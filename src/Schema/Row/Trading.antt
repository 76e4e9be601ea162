-- ===== src/Schema/Row/Trading.antt =====
-- deepbookv3/crates/schema/src/models.rs: rows of the database tables.
use rain_protocol.Prelude.{String, Bool}
use rain_protocol.Prelude.Int.{ℤ}

pub data OrderUpdateStatus : Type 0 where
  placed modified canceled expired : OrderUpdateStatus

-- `ToSql` and `FromSql`: the name of the variant.
unfoldable pub status_text : OrderUpdateStatus → String
status_text placed = "Placed"
status_text modified = "Modified"
status_text canceled = "Canceled"
status_text expired = "Expired"

pub record OrderUpdate : Type 0 where
  pub event_digest : String
  pub digest : String
  pub sender : String
  pub checkpoint : ℤ
  pub checkpoint_timestamp_ms : ℤ
  pub package_id : String
  pub status : OrderUpdateStatus
  pub pool_id : String
  pub order_id : String
  pub client_order_id : ℤ
  pub price : ℤ
  pub is_bid : Bool
  pub original_quantity : ℤ
  pub quantity : ℤ
  pub filled_quantity : ℤ
  pub onchain_timestamp : ℤ
  pub trader : String
  pub balance_manager_id : String

pub record OrderStatus : Type 0 where
  pub order_id : String
  pub balance_manager_id : String
  pub is_bid : Bool
  pub current_status : String
  pub price : ℤ
  pub placed_at : ℤ
  pub last_updated_at : ℤ
  pub original_quantity : ℤ
  pub filled_quantity : ℤ
  pub remaining_quantity : ℤ

pub record OrderFill : Type 0 where
  pub event_digest : String
  pub digest : String
  pub sender : String
  pub checkpoint : ℤ
  pub checkpoint_timestamp_ms : ℤ
  pub package_id : String
  pub pool_id : String
  pub maker_order_id : String
  pub taker_order_id : String
  pub maker_client_order_id : ℤ
  pub taker_client_order_id : ℤ
  pub price : ℤ
  pub taker_fee : ℤ
  pub taker_fee_is_deep : Bool
  pub maker_fee : ℤ
  pub maker_fee_is_deep : Bool
  pub taker_is_bid : Bool
  pub base_quantity : ℤ
  pub quote_quantity : ℤ
  pub maker_balance_manager_id : String
  pub taker_balance_manager_id : String
  pub onchain_timestamp : ℤ

pub record Flashloan : Type 0 where
  pub event_digest : String
  pub digest : String
  pub sender : String
  pub checkpoint : ℤ
  pub checkpoint_timestamp_ms : ℤ
  pub package_id : String
  pub pool_id : String
  pub borrow_quantity : ℤ
  pub borrow : Bool
  pub type_name : String

pub record PoolPrice : Type 0 where
  pub event_digest : String
  pub digest : String
  pub sender : String
  pub checkpoint : ℤ
  pub checkpoint_timestamp_ms : ℤ
  pub package_id : String
  pub target_pool : String
  pub reference_pool : String
  pub conversion_rate : ℤ

pub record Balances : Type 0 where
  pub event_digest : String
  pub digest : String
  pub sender : String
  pub checkpoint : ℤ
  pub checkpoint_timestamp_ms : ℤ
  pub package_id : String
  pub balance_manager_id : String
  pub asset : String
  pub amount : ℤ
  pub deposit : Bool

pub record DeepBurned : Type 0 where
  pub event_digest : String
  pub digest : String
  pub sender : String
  pub checkpoint : ℤ
  pub checkpoint_timestamp_ms : ℤ
  pub package_id : String
  pub pool_id : String
  pub burned_amount : ℤ

pub record PoolCreated : Type 0 where
  pub event_digest : String
  pub digest : String
  pub sender : String
  pub checkpoint : ℤ
  pub checkpoint_timestamp_ms : ℤ
  pub package_id : String
  pub pool_id : String
  pub taker_fee : ℤ
  pub maker_fee : ℤ
  pub tick_size : ℤ
  pub lot_size : ℤ
  pub min_size : ℤ
  pub whitelisted_pool : Bool
  pub treasury_address : String

pub record ReferralFeeEvent : Type 0 where
  pub event_digest : String
  pub digest : String
  pub sender : String
  pub checkpoint : ℤ
  pub checkpoint_timestamp_ms : ℤ
  pub package_id : String
  pub pool_id : String
  pub referral_id : String
  pub base_fee : ℤ
  pub quote_fee : ℤ
  pub deep_fee : ℤ
