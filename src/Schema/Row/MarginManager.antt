-- ===== src/Schema/Row/MarginManager.antt =====
-- deepbookv3/crates/schema/src/models.rs: rows of the database tables.
use rain_protocol.Prelude.{ℕ, String, Bool, Option}
use rain_protocol.Prelude.Int.{ℤ}

pub record MarginManagerCreated : Type 0 where
  pub event_digest : String
  pub digest : String
  pub sender : String
  pub checkpoint : ℤ
  pub checkpoint_timestamp_ms : ℤ
  pub package_id : String
  pub margin_manager_id : String
  pub balance_manager_id : String
  pub deepbook_pool_id : Option String
  pub owner : String
  pub onchain_timestamp : ℤ

pub record LoanBorrowed : Type 0 where
  pub event_digest : String
  pub digest : String
  pub sender : String
  pub checkpoint : ℤ
  pub checkpoint_timestamp_ms : ℤ
  pub package_id : String
  pub margin_manager_id : String
  pub margin_pool_id : String
  pub loan_amount : ℤ
  pub loan_shares : ℤ
  pub onchain_timestamp : ℤ

pub record LoanRepaid : Type 0 where
  pub event_digest : String
  pub digest : String
  pub sender : String
  pub checkpoint : ℤ
  pub checkpoint_timestamp_ms : ℤ
  pub package_id : String
  pub margin_manager_id : String
  pub margin_pool_id : String
  pub repay_amount : ℤ
  pub repay_shares : ℤ
  pub onchain_timestamp : ℤ

pub record Liquidation : Type 0 where
  pub event_digest : String
  pub digest : String
  pub sender : String
  pub checkpoint : ℤ
  pub checkpoint_timestamp_ms : ℤ
  pub package_id : String
  pub margin_manager_id : String
  pub margin_pool_id : String
  pub liquidation_amount : ℤ
  pub pool_reward : ℤ
  pub pool_default : ℤ
  pub risk_ratio : ℤ
  pub onchain_timestamp : ℤ
  pub remaining_base_asset : ℕ
  pub remaining_quote_asset : ℕ
  pub remaining_base_debt : ℕ
  pub remaining_quote_debt : ℕ
  pub base_pyth_price : ℤ
  pub base_pyth_decimals : ℤ
  pub quote_pyth_price : ℤ
  pub quote_pyth_decimals : ℤ

pub record CollateralEvent : Type 0 where
  pub event_digest : String
  pub digest : String
  pub sender : String
  pub checkpoint : ℤ
  pub checkpoint_timestamp_ms : ℤ
  pub package_id : String
  pub event_type : String
  pub margin_manager_id : String
  pub amount : ℕ
  pub asset_type : String
  pub pyth_decimals : ℤ
  pub pyth_price : ℕ
  pub withdraw_base_asset : Option Bool
  pub base_pyth_decimals : Option ℤ
  pub base_pyth_price : Option ℕ
  pub quote_pyth_decimals : Option ℤ
  pub quote_pyth_price : Option ℕ
  pub remaining_base_asset : Option ℕ
  pub remaining_quote_asset : Option ℕ
  pub remaining_base_debt : Option ℕ
  pub remaining_quote_debt : Option ℕ
  pub onchain_timestamp : ℤ
