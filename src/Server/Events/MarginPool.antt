-- ===== src/Server/Events/MarginPool.antt =====
-- deepbookv3/crates/server/src/server.rs: the endpoints for the operations and the configuration of margin pools.
use rain_protocol.Prelude.Int.{ℤ}
use rain_protocol.Server.Params.{Params, end_time, start_time_or_day, limit, get_or_default}
use rain_protocol.Server.Reader.{Table, RpcMetrics, Answer}
use rain_protocol.Server.Reader.MarginPool.{
  get_asset_supplied, get_asset_withdrawn, get_deepbook_pool_updated, get_interest_params_updated,
  get_margin_pool_config_updated, get_margin_pool_created,
}
use rain_protocol.Schema.Row.MarginPool.{AssetSupplied, AssetWithdrawn, DeepbookPoolUpdated}
use rain_protocol.Schema.Row.Config.{
  InterestParamsUpdated, MarginPoolConfigUpdated, MarginPoolCreated,
}

unfoldable pub asset_supplied : Table AssetSupplied → ℤ → Params → RpcMetrics → Answer AssetSupplied
unfolding get_asset_supplied
asset_supplied t now params m =
    let end = end_time now params in
    get_asset_supplied t (start_time_or_day end params) end (limit params)
      (get_or_default "margin_pool_id" params) (get_or_default "supplier" params) m

unfoldable pub asset_withdrawn :
    Table AssetWithdrawn → ℤ → Params → RpcMetrics → Answer AssetWithdrawn
unfolding get_asset_withdrawn
asset_withdrawn t now params m =
    let end = end_time now params in
    get_asset_withdrawn t (start_time_or_day end params) end (limit params)
      (get_or_default "margin_pool_id" params) (get_or_default "supplier" params) m

unfoldable pub deepbook_pool_updated :
    Table DeepbookPoolUpdated → ℤ → Params → RpcMetrics → Answer DeepbookPoolUpdated
unfolding get_deepbook_pool_updated
deepbook_pool_updated t now params m =
    let end = end_time now params in
    get_deepbook_pool_updated t (start_time_or_day end params) end (limit params)
      (get_or_default "margin_pool_id" params) (get_or_default "deepbook_pool_id" params) m

unfoldable pub interest_params_updated :
    Table InterestParamsUpdated → ℤ → Params → RpcMetrics → Answer InterestParamsUpdated
unfolding get_interest_params_updated
interest_params_updated t now params m =
    let end = end_time now params in
    get_interest_params_updated t (start_time_or_day end params) end (limit params)
      (get_or_default "margin_pool_id" params) m

unfoldable pub margin_pool_config_updated :
    Table MarginPoolConfigUpdated → ℤ → Params → RpcMetrics → Answer MarginPoolConfigUpdated
unfolding get_margin_pool_config_updated
margin_pool_config_updated t now params m =
    let end = end_time now params in
    get_margin_pool_config_updated t (start_time_or_day end params) end (limit params)
      (get_or_default "margin_pool_id" params) m

unfoldable pub margin_pool_created :
    Table MarginPoolCreated → Params → RpcMetrics → Answer MarginPoolCreated
unfolding get_margin_pool_created
margin_pool_created t params m =
    get_margin_pool_created t (get_or_default "margin_pool_id" params) m
