-- ===== src/Schema/Row/Api.antt =====
-- deepbookv3/crates/schema/src/models.rs: rows of the database tables.
use rain_protocol.Prelude.{String}
use rain_protocol.Prelude.Int.{ℤ}

pub record Pools : Type 0 where
  pub pool_id : String
  pub pool_name : String
  pub base_asset_id : String
  pub base_asset_decimals : ℤ
  pub base_asset_symbol : String
  pub base_asset_name : String
  pub quote_asset_id : String
  pub quote_asset_decimals : ℤ
  pub quote_asset_symbol : String
  pub quote_asset_name : String
  pub min_size : ℤ
  pub lot_size : ℤ
  pub tick_size : ℤ

pub record OrderFillSummary : Type 0 where
  pub pool_id : String
  pub maker_balance_manager_id : String
  pub taker_balance_manager_id : String
  pub quantity : ℤ
