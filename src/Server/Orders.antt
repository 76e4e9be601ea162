-- ===== src/Server/Orders.antt =====
-- deepbookv3/crates/server/src/server.rs, `orders`: the orders of a balance manager in a pool.
pub mod Laws
use rain_protocol.Prelude.{ℕ, String, List, [], ◌∷◌, map, Option, none, some, unwrap_or}
use rain_protocol.Prelude.Int.{ℤ, pos}
use rain_protocol.Prelude.Words.{as_u8, as_u64}
use rain_protocol.Prelude.Text.{split, trim}
use rain_protocol.Prelude.Map.{HashMap, get}
use rain_protocol.Schema.Row.Api.{Pools}
use rain_protocol.Schema.Row.Trading.{OrderStatus}
use rain_protocol.Server.Params.{Params, get_i64}
use rain_protocol.Server.Decimals.{base_factor, price_factor}
use rain_protocol.Server.Reader.{Table, RpcMetrics}
use rain_protocol.Server.Reader.Trades.{get_pool_decimals}
use rain_protocol.Server.Reader.Orders.{Statuses, get_orders_status}
use rain_protocol.Server.Trades.{Value, string, number, ratio, side, Reply, reply, with_pool}

-- The JSON object of one order.
unfoldable pub order_value : ℕ → ℕ → OrderStatus → HashMap Value
unfolding base_factor price_factor
order_value base_decimals quote_decimals o =
    ("order_id", string o.order_id)
    ∷ ("balance_manager_id", string o.balance_manager_id)
    ∷ ("type", string (side o.is_bid))
    ∷ ("current_status", string o.current_status)
    ∷ ("price", ratio o.price (price_factor base_decimals quote_decimals))
    ∷ ("placed_at", number (as_u64 o.placed_at))
    ∷ ("last_updated_at", number (as_u64 o.last_updated_at))
    ∷ ("original_quantity", ratio o.original_quantity (base_factor base_decimals))
    ∷ ("filled_quantity", ratio o.filled_quantity (base_factor base_decimals))
    ∷ ("remaining_quantity", ratio o.remaining_quantity (base_factor base_decimals))
    ∷ []

-- `s.split(',').map(|status| status.trim().to_string())`.
unfoldable pub status_filter : Params → Option (List String)
status_filter params = elim (get "status" params) [
  | none ↦ none
  | some s ↦ some (map trim (split b',' s))
]

unfoldable pub orders_limit : Params → ℤ
unfolding get_i64
orders_limit params = unwrap_or (pos 1000) (get_i64 "limit" params)

unfoldable pub orders : Table Pools → Statuses → String → String → Params → RpcMetrics → Reply
unfolding get_pool_decimals get_orders_status order_value status_filter orders_limit
orders pools statuses pool_name balance_manager_id params m =
    with_pool (get_pool_decimals pools pool_name m) λ pool m'.
      reply (order_value (as_u8 pool.base_asset_decimals) (as_u8 pool.quote_asset_decimals)) (
        get_orders_status statuses pool.pool_id (orders_limit params) (some balance_manager_id)
          (status_filter params) m')
