-- ===== src/Tests/Config.antt =====
-- JSON of object ids and of extra fields that tells different ones apart.
use rain_protocol.Prelude.{ℕ, ◌≡◌, refl, String, true, List, [], ◌∷◌, map, arith}
use rain_protocol.Prelude.Json.{Json, Elements, array, number, nil, cons, struct}
use rain_protocol.Indexer.Sdk.{Sdk, Bytes}
use rain_protocol.Indexer.Event.MarginPool.{MarginPoolConfig, ProtocolConfig}
use rain_protocol.Indexer.Event.MarginRegistry.{PoolConfig}
use rain_protocol.Indexer.ConfigJson.Laws.{config_json_injective}
use rain_protocol.Tests.Sdk.{test_sdk}

abbrev numbers : Bytes → Elements
numbers [] = nil
numbers (b ∷ rest) = cons (number b) (numbers rest)

abbrev extra : List (String × ℕ) → Json
extra entries = struct (map (λ (key, value). (key, number value)) entries)

numbers_injective : (a b : Bytes) → array (numbers a) ≡ array (numbers b) → a ≡ b
numbers_injective [] [] h = refl
numbers_injective [] (y ∷ ys) h = ground arith
numbers_injective (x ∷ xs) [] h = ground arith
numbers_injective (x ∷ xs) (y ∷ ys) h = ground (arith, numbers_injective xs ys)

extra_injective : (a b : List (String × ℕ)) → extra a ≡ extra b → a ≡ b
extra_injective [] [] h = refl
extra_injective [] ((l, n) ∷ ys) h = ground arith
extra_injective ((k, m) ∷ xs) [] h = ground arith
extra_injective ((k, m) ∷ xs) ((l, n) ∷ ys) h = ground (arith, extra_injective xs ys)

abbrev sdk : Sdk
sdk = record test_sdk { object_id_to_value = λ id. array (numbers id); vec_map_to_value = extra }

abbrev margin_pool_config : MarginPoolConfig
margin_pool_config = record {
  supply_cap = 100;
  max_utilization_rate = 80;
  protocol_spread = 1;
  min_borrow = 2;
  rate_limit_capacity = 3;
  rate_limit_refill_rate_per_ms = 4;
  rate_limit_enabled = true;
}

abbrev protocol_config : ProtocolConfig
protocol_config = record {
  margin_pool_config = margin_pool_config;
  interest_config = record {
    base_rate = 1;
    base_slope = 2;
    optimal_utilization = 3;
    excess_slope = 4;
  };
  extra_fields = ("k", 5) ∷ [];
}

abbrev pool_config : PoolConfig
pool_config = record {
  base_margin_pool_id = 1 ∷ [];
  quote_margin_pool_id = 2 ∷ [];
  risk_ratios = record {
    min_withdraw_risk_ratio = 1;
    min_borrow_risk_ratio = 2;
    liquidation_risk_ratio = 3;
    target_liquidation_risk_ratio = 4;
  };
  user_liquidation_reward = 5;
  pool_liquidation_reward = 6;
  enabled = true;
  extra_fields = [];
}

config_json_injective_example : (protocol_config ≡ protocol_config) × (pool_config ≡ pool_config)
config_json_injective_example =
    config_json_injective sdk protocol_config protocol_config pool_config pool_config
      numbers_injective extra_injective refl refl
