-- ===== src/Server/Trades.antt =====
-- deepbookv3/crates/server/src/server.rs, `trades` and `order_updates`: the trades of a pool, and the
-- changes of its orders.
pub mod Laws
use rain_protocol.Prelude.{
  ℕ, ◌%◌, ◌^◌, String, Bool, true, false, List, [], ◌∷◌, map, Option, none, some, if◌then◌else◌,
}
use rain_protocol.Prelude.Int.{ℤ}
use rain_protocol.Prelude.Words.{as_u8, as_u64}
use rain_protocol.Prelude.Decimal.{show_ℕ, show_ℤ}
use rain_protocol.Prelude.Map.{HashMap, get}
use rain_protocol.Prelude.Result.{Result, ok, err}
use rain_protocol.Schema.Row.Api.{Pools}
use rain_protocol.Schema.Row.Trading.{OrderFill, OrderUpdate}
use rain_protocol.Server.Error.{DeepBookError}
use rain_protocol.Server.Params.{Params, end_time, start_time_or_day, limit}
use rain_protocol.Server.TradeId.{calculate_trade_id}
use rain_protocol.Server.Decimals.{pow10_u64, base_factor, price_factor}
use rain_protocol.Server.Reader.{Table, RpcMetrics}
use rain_protocol.Server.Reader.Trades.{
  Trade, Update, get_orders, get_order_updates, get_pool_decimals,
}

-- The JSON values of the answers. `ratio a b` is the floating point quotient `a as f64 / b as f64`,
-- which is not evaluated here.
pub data Value : Type 0 where
  string : String → Value
  bool : Bool → Value
  number : ℕ → Value
  ratio : ℤ → ℕ → Value

abbrev pub side : Bool → String
side is_bid = if is_bid then "buy" else "sell"

-- `10u64.pow(6 as u32)`.
unfoldable pub deep_factor : ℕ
deep_factor = 10 ^ 6

-- The factors that the fees of taker and maker are divided by.
unfoldable pub taker_fee_factor : ℕ → ℕ → Trade → ℕ
unfolding base_factor pow10_u64 deep_factor
taker_fee_factor base_decimals quote_decimals t =
    if t.taker_fee_is_deep
    then deep_factor
    else if t.taker_is_bid
    then pow10_u64 quote_decimals
    else base_factor base_decimals

unfoldable pub maker_fee_factor : ℕ → ℕ → Trade → ℕ
unfolding base_factor pow10_u64 deep_factor
maker_fee_factor base_decimals quote_decimals t =
    if t.maker_fee_is_deep
    then deep_factor
    else if t.taker_is_bid
    then base_factor base_decimals
    else pow10_u64 quote_decimals

abbrev pub trade_id_or_zero : Result ℕ DeepBookError → ℕ
trade_id_or_zero (ok id) = id
trade_id_or_zero (err e) = 0

-- The JSON object of one trade.
unfoldable pub trade_value : ℕ → ℕ → Trade → HashMap Value
unfolding calculate_trade_id base_factor pow10_u64 price_factor taker_fee_factor maker_fee_factor
    show_ℤ
trade_value base_decimals quote_decimals t =
    ("event_digest", string t.event_digest)
    ∷ ("digest", string t.digest)
    ∷ (
      "trade_id",
      string (show_ℕ (trade_id_or_zero (calculate_trade_id t.maker_order_id t.taker_order_id))),
    )
    ∷ ("maker_order_id", string t.maker_order_id)
    ∷ ("taker_order_id", string t.taker_order_id)
    ∷ ("maker_client_order_id", string (show_ℤ t.maker_client_order_id))
    ∷ ("taker_client_order_id", string (show_ℤ t.taker_client_order_id))
    ∷ ("maker_balance_manager_id", string t.maker_balance_manager_id)
    ∷ ("taker_balance_manager_id", string t.taker_balance_manager_id)
    ∷ ("price", ratio t.price (price_factor base_decimals quote_decimals))
    ∷ ("base_volume", ratio t.base_quantity (base_factor base_decimals))
    ∷ ("quote_volume", ratio t.quote_quantity (pow10_u64 quote_decimals))
    ∷ ("timestamp", number (as_u64 t.timestamp))
    ∷ ("type", string (side t.taker_is_bid))
    ∷ ("taker_is_bid", bool t.taker_is_bid)
    ∷ ("taker_fee", ratio t.taker_fee (taker_fee_factor base_decimals quote_decimals t))
    ∷ ("maker_fee", ratio t.maker_fee (maker_fee_factor base_decimals quote_decimals t))
    ∷ ("taker_fee_is_deep", bool t.taker_fee_is_deep)
    ∷ ("maker_fee_is_deep", bool t.maker_fee_is_deep)
    ∷ []

-- The JSON object of one change of an order.
unfoldable pub update_value : ℕ → ℕ → Update → HashMap Value
unfolding base_factor price_factor
update_value base_decimals quote_decimals u =
    ("order_id", string u.order_id)
    ∷ ("price", ratio u.price (price_factor base_decimals quote_decimals))
    ∷ ("original_quantity", ratio u.original_quantity (base_factor base_decimals))
    ∷ ("remaining_quantity", ratio u.quantity (base_factor base_decimals))
    ∷ ("filled_quantity", ratio u.filled_quantity (base_factor base_decimals))
    ∷ ("timestamp", number (as_u64 u.timestamp))
    ∷ ("type", string (side u.is_bid))
    ∷ ("balance_manager_id", string u.balance_manager_id)
    ∷ ("status", string u.status)
    ∷ []

-- What an endpoint answers, with the reader's counters after it.
abbrev pub Reply : Type 0
Reply = Result (List (HashMap Value)) DeepBookError × RpcMetrics

-- `.await?` on the reader, and the objects of the rows.
abbrev pub reply :
    {A : Type 0} → (A → HashMap Value) → Result (List A) DeepBookError × RpcMetrics → Reply
reply f (err e, m) = (err e, m)
reply f (ok rows, m) = (ok (map f rows), m)

-- `let (pool_id, ..) = get_pool_decimals(&pool_name).await?;` and what follows it.
abbrev pub with_pool :
    Result Pools DeepBookError × RpcMetrics → (Pools → RpcMetrics → Reply) → Reply
with_pool (err e, m) next = (err e, m)
with_pool (ok pool, m) next = next pool m

module _ (pools : Table Pools) (now : ℤ) where
  unfoldable pub trades : Table OrderFill → String → Params → RpcMetrics → Reply
  unfolding get_pool_decimals get_orders trade_value
  trades fills pool_name params m = with_pool (get_pool_decimals pools pool_name m) λ pool m'.
      let end = end_time now params in
      reply (trade_value (as_u8 pool.base_asset_decimals) (as_u8 pool.quote_asset_decimals)) (
        get_orders fills pool_name pool.pool_id (start_time_or_day end params) end (limit params)
          (get "maker_balance_manager_id" params) (get "taker_balance_manager_id" params)
          (get "balance_manager_id" params) m')

  unfoldable pub order_updates : Table OrderUpdate → String → Params → RpcMetrics → Reply
  unfolding get_pool_decimals get_order_updates update_value
  order_updates updates pool_name params m =
      with_pool (get_pool_decimals pools pool_name m) λ pool m'.
        let end = end_time now params in
        reply (update_value (as_u8 pool.base_asset_decimals) (as_u8 pool.quote_asset_decimals)) (
          get_order_updates updates pool.pool_id (start_time_or_day end params) end (limit params)
            (get "balance_manager_id" params) (get "status" params) m')
