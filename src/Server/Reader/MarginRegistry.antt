-- ===== src/Server/Reader/MarginRegistry.antt =====
-- deepbookv3/crates/server/src/reader.rs: queries of the margin registry.
use rain_protocol.Prelude.{String, [], ◌∷◌, some}
use rain_protocol.Prelude.Int.{ℤ}
use rain_protocol.Server.Reader.{between, like, to_pattern, Table, RpcMetrics, Answer, results}
use rain_protocol.Schema.Row.MarginRegistry.{
  MaintainerCapUpdated, PauseCapUpdated, DeepbookPoolUpdatedRegistry,
}
use rain_protocol.Schema.Row.Config.{DeepbookPoolRegistered, DeepbookPoolConfigUpdated}

unfoldable pub get_maintainer_cap_updated :
    Table MaintainerCapUpdated → ℤ → ℤ → ℤ → String → RpcMetrics → Answer MaintainerCapUpdated
unfolding results to_pattern
get_maintainer_cap_updated t start_time end_time limit maintainer_cap_id_filter m =
    results t
      (record {
        filters =
            between (λ r. r.checkpoint_timestamp_ms) start_time end_time
            ∷ like (λ r. r.maintainer_cap_id) (to_pattern maintainer_cap_id_filter)
            ∷ [];
        order_by_desc = λ r. r.checkpoint_timestamp_ms;
        limit = some limit;
      })
      m

unfoldable pub get_pause_cap_updated :
    Table PauseCapUpdated → ℤ → ℤ → ℤ → String → RpcMetrics → Answer PauseCapUpdated
unfolding results to_pattern
get_pause_cap_updated t start_time end_time limit pause_cap_id_filter m =
    results t
      (record {
        filters =
            between (λ r. r.checkpoint_timestamp_ms) start_time end_time
            ∷ like (λ r. r.pause_cap_id) (to_pattern pause_cap_id_filter)
            ∷ [];
        order_by_desc = λ r. r.checkpoint_timestamp_ms;
        limit = some limit;
      })
      m

unfoldable pub get_deepbook_pool_registered :
    Table DeepbookPoolRegistered → ℤ → ℤ → ℤ → String → RpcMetrics → Answer DeepbookPoolRegistered
unfolding results to_pattern
get_deepbook_pool_registered t start_time end_time limit pool_id_filter m =
    results t
      (record {
        filters =
            between (λ r. r.checkpoint_timestamp_ms) start_time end_time
            ∷ like (λ r. r.pool_id) (to_pattern pool_id_filter)
            ∷ [];
        order_by_desc = λ r. r.checkpoint_timestamp_ms;
        limit = some limit;
      })
      m

unfoldable pub get_deepbook_pool_updated_registry :
    Table DeepbookPoolUpdatedRegistry
    → ℤ
    → ℤ
    → ℤ
    → String
    → RpcMetrics
    → Answer DeepbookPoolUpdatedRegistry
unfolding results to_pattern
get_deepbook_pool_updated_registry t start_time end_time limit pool_id_filter m =
    results t
      (record {
        filters =
            between (λ r. r.checkpoint_timestamp_ms) start_time end_time
            ∷ like (λ r. r.pool_id) (to_pattern pool_id_filter)
            ∷ [];
        order_by_desc = λ r. r.checkpoint_timestamp_ms;
        limit = some limit;
      })
      m

unfoldable pub get_deepbook_pool_config_updated :
    Table DeepbookPoolConfigUpdated
    → ℤ
    → ℤ
    → ℤ
    → String
    → RpcMetrics
    → Answer DeepbookPoolConfigUpdated
unfolding results to_pattern
get_deepbook_pool_config_updated t start_time end_time limit pool_id_filter m =
    results t
      (record {
        filters =
            between (λ r. r.checkpoint_timestamp_ms) start_time end_time
            ∷ like (λ r. r.pool_id) (to_pattern pool_id_filter)
            ∷ [];
        order_by_desc = λ r. r.checkpoint_timestamp_ms;
        limit = some limit;
      })
      m
