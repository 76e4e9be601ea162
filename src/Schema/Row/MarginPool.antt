-- ===== src/Schema/Row/MarginPool.antt =====
-- deepbookv3/crates/schema/src/models.rs: rows of the database tables.
use rain_protocol.Prelude.{String, Bool}
use rain_protocol.Prelude.Int.{ℤ}

pub record AssetSupplied : Type 0 where
  pub event_digest : String
  pub digest : String
  pub sender : String
  pub checkpoint : ℤ
  pub checkpoint_timestamp_ms : ℤ
  pub package_id : String
  pub margin_pool_id : String
  pub asset_type : String
  pub supplier : String
  pub amount : ℤ
  pub shares : ℤ
  pub onchain_timestamp : ℤ

pub record AssetWithdrawn : Type 0 where
  pub event_digest : String
  pub digest : String
  pub sender : String
  pub checkpoint : ℤ
  pub checkpoint_timestamp_ms : ℤ
  pub package_id : String
  pub margin_pool_id : String
  pub asset_type : String
  pub supplier : String
  pub amount : ℤ
  pub shares : ℤ
  pub onchain_timestamp : ℤ

pub record DeepbookPoolUpdated : Type 0 where
  pub event_digest : String
  pub digest : String
  pub sender : String
  pub checkpoint : ℤ
  pub checkpoint_timestamp_ms : ℤ
  pub package_id : String
  pub margin_pool_id : String
  pub deepbook_pool_id : String
  pub pool_cap_id : String
  pub enabled : Bool
  pub onchain_timestamp : ℤ

pub record MaintainerFeesWithdrawn : Type 0 where
  pub event_digest : String
  pub digest : String
  pub sender : String
  pub checkpoint : ℤ
  pub checkpoint_timestamp_ms : ℤ
  pub package_id : String
  pub margin_pool_id : String
  pub margin_pool_cap_id : String
  pub maintainer_fees : ℤ
  pub onchain_timestamp : ℤ

pub record ProtocolFeesWithdrawn : Type 0 where
  pub event_digest : String
  pub digest : String
  pub sender : String
  pub checkpoint : ℤ
  pub checkpoint_timestamp_ms : ℤ
  pub package_id : String
  pub margin_pool_id : String
  pub protocol_fees : ℤ
  pub onchain_timestamp : ℤ

pub record SupplierCapMinted : Type 0 where
  pub event_digest : String
  pub digest : String
  pub sender : String
  pub checkpoint : ℤ
  pub checkpoint_timestamp_ms : ℤ
  pub package_id : String
  pub supplier_cap_id : String
  pub onchain_timestamp : ℤ

pub record SupplyReferralMinted : Type 0 where
  pub event_digest : String
  pub digest : String
  pub sender : String
  pub checkpoint : ℤ
  pub checkpoint_timestamp_ms : ℤ
  pub package_id : String
  pub margin_pool_id : String
  pub supply_referral_id : String
  pub owner : String
  pub onchain_timestamp : ℤ

pub record ProtocolFeesIncreasedEvent : Type 0 where
  pub event_digest : String
  pub digest : String
  pub sender : String
  pub checkpoint : ℤ
  pub checkpoint_timestamp_ms : ℤ
  pub package_id : String
  pub margin_pool_id : String
  pub total_shares : ℤ
  pub referral_fees : ℤ
  pub maintainer_fees : ℤ
  pub protocol_fees : ℤ
  pub onchain_timestamp : ℤ

pub record ReferralFeesClaimedEvent : Type 0 where
  pub event_digest : String
  pub digest : String
  pub sender : String
  pub checkpoint : ℤ
  pub checkpoint_timestamp_ms : ℤ
  pub package_id : String
  pub referral_id : String
  pub owner : String
  pub fees : ℤ
  pub onchain_timestamp : ℤ
