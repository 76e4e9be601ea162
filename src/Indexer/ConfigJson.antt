-- ===== src/Indexer/ConfigJson.antt =====
-- deepbookv3/crates/indexer/src/models.rs: the JSON of the configuration structs, as their derived
-- `Serialize` and `serde_json::to_value` give it.
pub mod Laws
use rain_protocol.Prelude.{[], ◌∷◌}
use rain_protocol.Prelude.Json.{Json, bool, number, struct}
use rain_protocol.Indexer.Sdk.{Sdk}
use rain_protocol.Indexer.Event.MarginPool.{MarginPoolConfig, InterestConfig, ProtocolConfig}
use rain_protocol.Indexer.Event.MarginRegistry.{RiskRatios, PoolConfig}

unfoldable pub margin_pool_config_to_value : MarginPoolConfig → Json
margin_pool_config_to_value c = struct (
    ("supply_cap", number c.supply_cap)
    ∷ ("max_utilization_rate", number c.max_utilization_rate)
    ∷ ("protocol_spread", number c.protocol_spread)
    ∷ ("min_borrow", number c.min_borrow)
    ∷ ("rate_limit_capacity", number c.rate_limit_capacity)
    ∷ ("rate_limit_refill_rate_per_ms", number c.rate_limit_refill_rate_per_ms)
    ∷ ("rate_limit_enabled", bool c.rate_limit_enabled)
    ∷ [])

unfoldable pub interest_config_to_value : InterestConfig → Json
interest_config_to_value c = struct (
    ("base_rate", number c.base_rate)
    ∷ ("base_slope", number c.base_slope)
    ∷ ("optimal_utilization", number c.optimal_utilization)
    ∷ ("excess_slope", number c.excess_slope)
    ∷ [])

unfoldable pub risk_ratios_to_value : RiskRatios → Json
risk_ratios_to_value r = struct (
    ("min_withdraw_risk_ratio", number r.min_withdraw_risk_ratio)
    ∷ ("min_borrow_risk_ratio", number r.min_borrow_risk_ratio)
    ∷ ("liquidation_risk_ratio", number r.liquidation_risk_ratio)
    ∷ ("target_liquidation_risk_ratio", number r.target_liquidation_risk_ratio)
    ∷ [])

module _ (sdk : Sdk) where
  unfoldable pub protocol_config_to_value : ProtocolConfig → Json
  unfolding margin_pool_config_to_value interest_config_to_value
  protocol_config_to_value c = struct (
      ("margin_pool_config", margin_pool_config_to_value c.margin_pool_config)
      ∷ ("interest_config", interest_config_to_value c.interest_config)
      ∷ ("extra_fields", sdk.vec_map_to_value c.extra_fields)
      ∷ [])

  unfoldable pub pool_config_to_value : PoolConfig → Json
  unfolding risk_ratios_to_value
  pool_config_to_value c = struct (
      ("base_margin_pool_id", sdk.object_id_to_value c.base_margin_pool_id)
      ∷ ("quote_margin_pool_id", sdk.object_id_to_value c.quote_margin_pool_id)
      ∷ ("risk_ratios", risk_ratios_to_value c.risk_ratios)
      ∷ ("user_liquidation_reward", number c.user_liquidation_reward)
      ∷ ("pool_liquidation_reward", number c.pool_liquidation_reward)
      ∷ ("enabled", bool c.enabled)
      ∷ ("extra_fields", sdk.vec_map_to_value c.extra_fields)
      ∷ [])
