-- ===== src/Indexer/ConfigJson/Laws.antt =====
-- What the stored JSON keeps of a configuration.
use rain_protocol.Prelude.{ℕ, ◌≡◌, String, List, arith}
use rain_protocol.Indexer.Sdk.{Sdk, Bytes}
use rain_protocol.Indexer.Event.MarginPool.{ProtocolConfig, MarginPoolConfig, InterestConfig}
use rain_protocol.Indexer.Event.MarginRegistry.{PoolConfig, RiskRatios}
use rain_protocol.Indexer.ConfigJson.{
  margin_pool_config_to_value, interest_config_to_value, risk_ratios_to_value,
  protocol_config_to_value, pool_config_to_value,
}

pub margin_pool_config_to_value_injective :
    (a b : MarginPoolConfig) → margin_pool_config_to_value a ≡ margin_pool_config_to_value b → a ≡ b
unfolding margin_pool_config_to_value
margin_pool_config_to_value_injective a b h = cc

pub interest_config_to_value_injective :
    (a b : InterestConfig) → interest_config_to_value a ≡ interest_config_to_value b → a ≡ b
unfolding interest_config_to_value
interest_config_to_value_injective a b h = cc

risk_ratios_to_value_injective :
    (a b : RiskRatios) → risk_ratios_to_value a ≡ risk_ratios_to_value b → a ≡ b
unfolding risk_ratios_to_value
risk_ratios_to_value_injective a b h = cc

-- Where the JSON of object ids and of extra fields tells different ones apart, a stored
-- `config_json` determines the configuration it was made from: two protocol configurations with the
-- same JSON are equal, and so are two pool configurations.
pub config_json_injective :
    (sdk : Sdk) (a b : ProtocolConfig) (c d : PoolConfig)
    → ((x y : Bytes) → sdk.object_id_to_value x ≡ sdk.object_id_to_value y → x ≡ y)
    → ((x y : List (String × ℕ)) → sdk.vec_map_to_value x ≡ sdk.vec_map_to_value y → x ≡ y)
    → protocol_config_to_value sdk a ≡ protocol_config_to_value sdk b
    → pool_config_to_value sdk c ≡ pool_config_to_value sdk d
    → (a ≡ b) × (c ≡ d)
unfolding protocol_config_to_value pool_config_to_value
config_json_injective sdk a b c d ids extra h k = (
  ground (
    arith,
    margin_pool_config_to_value_injective a.margin_pool_config b.margin_pool_config,
    interest_config_to_value_injective a.interest_config b.interest_config,
    extra a.extra_fields b.extra_fields,
  ),
  ground (
    arith,
    ids c.base_margin_pool_id d.base_margin_pool_id,
    ids c.quote_margin_pool_id d.quote_margin_pool_id,
    risk_ratios_to_value_injective c.risk_ratios d.risk_ratios,
    extra c.extra_fields d.extra_fields,
  ),
)
