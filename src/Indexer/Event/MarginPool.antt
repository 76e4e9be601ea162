-- ===== src/Indexer/Event/MarginPool.antt =====
-- deepbookv3/crates/indexer/src/models.rs: the Move events of the module `margin_pool`.
use rain_protocol.Prelude.{ℕ, String, Bool, List}
use rain_protocol.Indexer.Sdk.{Bytes}

pub record MarginPoolConfig : Type 0 where
  pub supply_cap : ℕ
  pub max_utilization_rate : ℕ
  pub protocol_spread : ℕ
  pub min_borrow : ℕ
  pub rate_limit_capacity : ℕ
  pub rate_limit_refill_rate_per_ms : ℕ
  pub rate_limit_enabled : Bool

pub record InterestConfig : Type 0 where
  pub base_rate : ℕ
  pub base_slope : ℕ
  pub optimal_utilization : ℕ
  pub excess_slope : ℕ

pub record ProtocolConfig : Type 0 where
  pub margin_pool_config : MarginPoolConfig
  pub interest_config : InterestConfig
  pub extra_fields : List (String × ℕ)

pub record MarginPoolCreated : Type 0 where
  pub margin_pool_id : Bytes
  pub maintainer_cap_id : Bytes
  pub asset_type : String
  pub config : ProtocolConfig
  pub timestamp : ℕ

pub record InterestParamsUpdated : Type 0 where
  pub margin_pool_id : Bytes
  pub pool_cap_id : Bytes
  pub interest_config : InterestConfig
  pub timestamp : ℕ

pub record MarginPoolConfigUpdated : Type 0 where
  pub margin_pool_id : Bytes
  pub pool_cap_id : Bytes
  pub margin_pool_config : MarginPoolConfig
  pub timestamp : ℕ

pub record DeepbookPoolUpdated : Type 0 where
  pub margin_pool_id : Bytes
  pub deepbook_pool_id : Bytes
  pub pool_cap_id : Bytes
  pub enabled : Bool
  pub timestamp : ℕ

pub record AssetSupplied : Type 0 where
  pub margin_pool_id : Bytes
  pub asset_type : String
  pub supplier : Bytes
  pub supply_amount : ℕ
  pub supply_shares : ℕ
  pub timestamp : ℕ

pub record AssetWithdrawn : Type 0 where
  pub margin_pool_id : Bytes
  pub asset_type : String
  pub supplier : Bytes
  pub withdraw_amount : ℕ
  pub withdraw_shares : ℕ
  pub timestamp : ℕ

pub record MaintainerFeesWithdrawn : Type 0 where
  pub margin_pool_id : Bytes
  pub margin_pool_cap_id : Bytes
  pub maintainer_fees : ℕ
  pub timestamp : ℕ

pub record ProtocolFeesWithdrawn : Type 0 where
  pub margin_pool_id : Bytes
  pub protocol_fees : ℕ
  pub timestamp : ℕ

pub record SupplierCapMinted : Type 0 where
  pub supplier_cap_id : Bytes
  pub timestamp : ℕ

pub record SupplyReferralMinted : Type 0 where
  pub margin_pool_id : Bytes
  pub supply_referral_id : Bytes
  pub owner : Bytes
  pub timestamp : ℕ
