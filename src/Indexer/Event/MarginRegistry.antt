-- ===== src/Indexer/Event/MarginRegistry.antt =====
-- deepbookv3/crates/indexer/src/models.rs: the Move events of the module `margin_registry`.
use rain_protocol.Prelude.{ℕ, Bool, String, List}
use rain_protocol.Indexer.Sdk.{Bytes}

pub record RiskRatios : Type 0 where
  pub min_withdraw_risk_ratio : ℕ
  pub min_borrow_risk_ratio : ℕ
  pub liquidation_risk_ratio : ℕ
  pub target_liquidation_risk_ratio : ℕ

pub record PoolConfig : Type 0 where
  pub base_margin_pool_id : Bytes
  pub quote_margin_pool_id : Bytes
  pub risk_ratios : RiskRatios
  pub user_liquidation_reward : ℕ
  pub pool_liquidation_reward : ℕ
  pub enabled : Bool
  pub extra_fields : List (String × ℕ)

pub record DeepbookPoolRegistered : Type 0 where
  pub pool_id : Bytes
  pub config : PoolConfig
  pub timestamp : ℕ

pub record DeepbookPoolConfigUpdated : Type 0 where
  pub pool_id : Bytes
  pub config : PoolConfig
  pub timestamp : ℕ

pub record MaintainerCapUpdated : Type 0 where
  pub maintainer_cap_id : Bytes
  pub allowed : Bool
  pub timestamp : ℕ

pub record DeepbookPoolUpdated : Type 0 where
  pub pool_id : Bytes
  pub enabled : Bool
  pub timestamp : ℕ

pub record PauseCapUpdated : Type 0 where
  pub pause_cap_id : Bytes
  pub allowed : Bool
  pub timestamp : ℕ
