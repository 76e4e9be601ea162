-- ===== src/Schema/Row/Config.antt =====
-- deepbookv3/crates/schema/src/models.rs: rows of the database tables that have a JSON column.
use rain_protocol.Prelude.{String, Option}
use rain_protocol.Prelude.Int.{ℤ}
use rain_protocol.Prelude.Json.{Json}

pub record MarginPoolCreated : Type 0 where
  pub event_digest : String
  pub digest : String
  pub sender : String
  pub checkpoint : ℤ
  pub checkpoint_timestamp_ms : ℤ
  pub package_id : String
  pub margin_pool_id : String
  pub maintainer_cap_id : String
  pub asset_type : String
  pub config_json : Json
  pub onchain_timestamp : ℤ

pub record InterestParamsUpdated : Type 0 where
  pub event_digest : String
  pub digest : String
  pub sender : String
  pub checkpoint : ℤ
  pub checkpoint_timestamp_ms : ℤ
  pub package_id : String
  pub margin_pool_id : String
  pub pool_cap_id : String
  pub config_json : Json
  pub onchain_timestamp : ℤ

pub record MarginPoolConfigUpdated : Type 0 where
  pub event_digest : String
  pub digest : String
  pub sender : String
  pub checkpoint : ℤ
  pub checkpoint_timestamp_ms : ℤ
  pub package_id : String
  pub margin_pool_id : String
  pub pool_cap_id : String
  pub config_json : Json
  pub onchain_timestamp : ℤ

pub record DeepbookPoolRegistered : Type 0 where
  pub event_digest : String
  pub digest : String
  pub sender : String
  pub checkpoint : ℤ
  pub checkpoint_timestamp_ms : ℤ
  pub package_id : String
  pub pool_id : String
  pub config_json : Option Json
  pub onchain_timestamp : ℤ

pub record DeepbookPoolConfigUpdated : Type 0 where
  pub event_digest : String
  pub digest : String
  pub sender : String
  pub checkpoint : ℤ
  pub checkpoint_timestamp_ms : ℤ
  pub package_id : String
  pub pool_id : String
  pub config_json : Json
  pub onchain_timestamp : ℤ
