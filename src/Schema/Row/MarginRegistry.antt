-- ===== src/Schema/Row/MarginRegistry.antt =====
-- deepbookv3/crates/schema/src/models.rs: rows of the database tables.
use rain_protocol.Prelude.{String, Bool}
use rain_protocol.Prelude.Int.{ℤ}

pub record MaintainerCapUpdated : Type 0 where
  pub event_digest : String
  pub digest : String
  pub sender : String
  pub checkpoint : ℤ
  pub checkpoint_timestamp_ms : ℤ
  pub package_id : String
  pub maintainer_cap_id : String
  pub allowed : Bool
  pub onchain_timestamp : ℤ

pub record DeepbookPoolUpdatedRegistry : Type 0 where
  pub event_digest : String
  pub digest : String
  pub sender : String
  pub checkpoint : ℤ
  pub checkpoint_timestamp_ms : ℤ
  pub package_id : String
  pub pool_id : String
  pub enabled : Bool
  pub onchain_timestamp : ℤ

pub record PauseCapUpdated : Type 0 where
  pub event_digest : String
  pub digest : String
  pub sender : String
  pub checkpoint : ℤ
  pub checkpoint_timestamp_ms : ℤ
  pub package_id : String
  pub pause_cap_id : String
  pub allowed : Bool
  pub onchain_timestamp : ℤ
