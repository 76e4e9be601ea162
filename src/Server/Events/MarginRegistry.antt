-- ===== src/Server/Events/MarginRegistry.antt =====
-- deepbookv3/crates/server/src/server.rs: the endpoints for the margin registry.
use rain_protocol.Prelude.Int.{ℤ}
use rain_protocol.Server.Params.{Params, end_time, start_time_or_day, limit, get_or_default}
use rain_protocol.Server.Reader.{Table, RpcMetrics, Answer}
use rain_protocol.Server.Reader.MarginRegistry.{
  get_maintainer_cap_updated, get_pause_cap_updated, get_deepbook_pool_registered,
  get_deepbook_pool_updated_registry, get_deepbook_pool_config_updated,
}
use rain_protocol.Schema.Row.MarginRegistry.{
  MaintainerCapUpdated, PauseCapUpdated, DeepbookPoolUpdatedRegistry,
}
use rain_protocol.Schema.Row.Config.{DeepbookPoolRegistered, DeepbookPoolConfigUpdated}

unfoldable pub maintainer_cap_updated :
    Table MaintainerCapUpdated → ℤ → Params → RpcMetrics → Answer MaintainerCapUpdated
unfolding get_maintainer_cap_updated
maintainer_cap_updated t now params m =
    let end = end_time now params in
    get_maintainer_cap_updated t (start_time_or_day end params) end (limit params)
      (get_or_default "maintainer_cap_id" params) m

unfoldable pub pause_cap_updated :
    Table PauseCapUpdated → ℤ → Params → RpcMetrics → Answer PauseCapUpdated
unfolding get_pause_cap_updated
pause_cap_updated t now params m =
    let end = end_time now params in
    get_pause_cap_updated t (start_time_or_day end params) end (limit params)
      (get_or_default "pause_cap_id" params) m

unfoldable pub deepbook_pool_registered :
    Table DeepbookPoolRegistered → ℤ → Params → RpcMetrics → Answer DeepbookPoolRegistered
unfolding get_deepbook_pool_registered
deepbook_pool_registered t now params m =
    let end = end_time now params in
    get_deepbook_pool_registered t (start_time_or_day end params) end (limit params)
      (get_or_default "pool_id" params) m

unfoldable pub deepbook_pool_updated_registry :
    Table DeepbookPoolUpdatedRegistry → ℤ → Params → RpcMetrics → Answer DeepbookPoolUpdatedRegistry
unfolding get_deepbook_pool_updated_registry
deepbook_pool_updated_registry t now params m =
    let end = end_time now params in
    get_deepbook_pool_updated_registry t (start_time_or_day end params) end (limit params)
      (get_or_default "pool_id" params) m

unfoldable pub deepbook_pool_config_updated :
    Table DeepbookPoolConfigUpdated → ℤ → Params → RpcMetrics → Answer DeepbookPoolConfigUpdated
unfolding get_deepbook_pool_config_updated
deepbook_pool_config_updated t now params m =
    let end = end_time now params in
    get_deepbook_pool_config_updated t (start_time_or_day end params) end (limit params)
      (get_or_default "pool_id" params) m
