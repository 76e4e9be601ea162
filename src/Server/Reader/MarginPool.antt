-- ===== src/Server/Reader/MarginPool.antt =====
-- deepbookv3/crates/server/src/reader.rs: queries of the operations and the configuration of margin pools.
use rain_protocol.Prelude.{String, [], ◌∷◌, none, some}
use rain_protocol.Prelude.Int.{ℤ}
use rain_protocol.Server.Reader.{between, like, to_pattern, Table, RpcMetrics, Answer, results}
use rain_protocol.Schema.Row.MarginPool.{AssetSupplied, AssetWithdrawn, DeepbookPoolUpdated}
use rain_protocol.Schema.Row.Config.{
  InterestParamsUpdated, MarginPoolConfigUpdated, MarginPoolCreated,
}

unfoldable pub get_asset_supplied :
    Table AssetSupplied → ℤ → ℤ → ℤ → String → String → RpcMetrics → Answer AssetSupplied
unfolding results to_pattern
get_asset_supplied t start_time end_time limit margin_pool_id_filter supplier_filter m =
    results t
      (record {
        filters =
            between (λ r. r.checkpoint_timestamp_ms) start_time end_time
            ∷ like (λ r. r.margin_pool_id) (to_pattern margin_pool_id_filter)
            ∷ like (λ r. r.supplier) (to_pattern supplier_filter)
            ∷ [];
        order_by_desc = λ r. r.checkpoint_timestamp_ms;
        limit = some limit;
      })
      m

unfoldable pub get_asset_withdrawn :
    Table AssetWithdrawn → ℤ → ℤ → ℤ → String → String → RpcMetrics → Answer AssetWithdrawn
unfolding results to_pattern
get_asset_withdrawn t start_time end_time limit margin_pool_id_filter supplier_filter m =
    results t
      (record {
        filters =
            between (λ r. r.checkpoint_timestamp_ms) start_time end_time
            ∷ like (λ r. r.margin_pool_id) (to_pattern margin_pool_id_filter)
            ∷ like (λ r. r.supplier) (to_pattern supplier_filter)
            ∷ [];
        order_by_desc = λ r. r.checkpoint_timestamp_ms;
        limit = some limit;
      })
      m

unfoldable pub get_deepbook_pool_updated :
    Table DeepbookPoolUpdated
    → ℤ
    → ℤ
    → ℤ
    → String
    → String
    → RpcMetrics
    → Answer DeepbookPoolUpdated
unfolding results to_pattern
get_deepbook_pool_updated t start_time end_time limit margin_pool_id_filter deepbook_pool_id_filter
      m =
    results t
      (record {
        filters =
            between (λ r. r.checkpoint_timestamp_ms) start_time end_time
            ∷ like (λ r. r.margin_pool_id) (to_pattern margin_pool_id_filter)
            ∷ like (λ r. r.deepbook_pool_id) (to_pattern deepbook_pool_id_filter)
            ∷ [];
        order_by_desc = λ r. r.checkpoint_timestamp_ms;
        limit = some limit;
      })
      m

unfoldable pub get_interest_params_updated :
    Table InterestParamsUpdated → ℤ → ℤ → ℤ → String → RpcMetrics → Answer InterestParamsUpdated
unfolding results to_pattern
get_interest_params_updated t start_time end_time limit margin_pool_id_filter m =
    results t
      (record {
        filters =
            between (λ r. r.checkpoint_timestamp_ms) start_time end_time
            ∷ like (λ r. r.margin_pool_id) (to_pattern margin_pool_id_filter)
            ∷ [];
        order_by_desc = λ r. r.checkpoint_timestamp_ms;
        limit = some limit;
      })
      m

unfoldable pub get_margin_pool_config_updated :
    Table MarginPoolConfigUpdated → ℤ → ℤ → ℤ → String → RpcMetrics → Answer MarginPoolConfigUpdated
unfolding results to_pattern
get_margin_pool_config_updated t start_time end_time limit margin_pool_id_filter m =
    results t
      (record {
        filters =
            between (λ r. r.checkpoint_timestamp_ms) start_time end_time
            ∷ like (λ r. r.margin_pool_id) (to_pattern margin_pool_id_filter)
            ∷ [];
        order_by_desc = λ r. r.checkpoint_timestamp_ms;
        limit = some limit;
      })
      m

-- Neither a time range nor a limit.
unfoldable pub get_margin_pool_created :
    Table MarginPoolCreated → String → RpcMetrics → Answer MarginPoolCreated
unfolding results to_pattern
get_margin_pool_created t margin_pool_id_filter m =
    results t
      (record {
        filters = like (λ r. r.margin_pool_id) (to_pattern margin_pool_id_filter) ∷ [];
        order_by_desc = λ r. r.checkpoint_timestamp_ms;
        limit = none;
      })
      m
