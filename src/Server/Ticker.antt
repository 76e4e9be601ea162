-- ===== src/Server/Ticker.antt =====
-- deepbookv3/crates/server/src/server.rs, `ticker`: the last price and the traded volumes of every pool.
pub mod Laws
pub mod Factors
pub mod LastPrice
use rain_protocol.Prelude.{
  ℕ, ◌+◌, ◌-◌, ◌%◌, ◌^◌, String, Bool, true, false, List, [], ◌∷◌, map, Option, none, some,
  unwrap_or, ltb, if◌then◌else◌,
}
use rain_protocol.Prelude.Int.{ℤ, pos, negsuc, ◌+ℤ◌, ◌-ℤ◌}
use rain_protocol.Prelude.Words.{sub_i64}
use rain_protocol.Prelude.Map.{HashMap, get, insert, collect}
use rain_protocol.Prelude.Result.{Result, ok, err, ◌>>=◌}
use rain_protocol.Schema.Row.Api.{Pools}
use rain_protocol.Server.Error.{DeepBookError}
use rain_protocol.Server.Params.{Params, day_ms}
use rain_protocol.Server.Decimals.{pow10_u64}
use rain_protocol.Server.Volume.{all_historical_volume}

-- What an `i16` keeps of a sum, and its bits as a `u32`, which extends the sign.
unfoldable pub as_u16 : ℤ → ℕ
as_u16 (pos n) = n % 2 ^ 16
as_u16 (negsuc n) = 2 ^ 16 - 1 - n % 2 ^ 16

unfoldable pub wrap_i16 : ℤ → ℤ
unfolding as_u16
wrap_i16 z = if ltb (as_u16 z) (2 ^ 15) then pos (as_u16 z) else negsuc (2 ^ 16 - 1 - as_u16 z)

unfoldable pub as_u32 : ℤ → ℕ
as_u32 (pos n) = n % 2 ^ 32
as_u32 (negsuc n) = 2 ^ 32 - 1 - n % 2 ^ 32

-- `10u64.pow((9 - base_decimals + quote_decimals) as u32)` of two `i16`.
unfoldable pub price_factor_i16 : ℤ → ℤ → ℕ
unfolding pow10_u64 as_u32 wrap_i16 ◌+ℤ◌ ◌-ℤ◌
price_factor_i16 base_decimals quote_decimals =
    pow10_u64 (as_u32 (wrap_i16 (wrap_i16 (pos 9 -ℤ base_decimals) +ℤ quote_decimals)))

-- `10u64.pow(decimals as u32)`.
unfoldable pub asset_factor : ℤ → ℕ
unfolding pow10_u64 as_u32
asset_factor decimals = pow10_u64 (as_u32 decimals)

-- The values of the answer. The floating point quotient of two integers is left unevaluated.
pub data TickerValue : Type 0 where
  quotient : ℤ → ℕ → TickerValue
  zero_price : TickerValue
  integer : ℕ → TickerValue

abbrev pub price_value : ℕ → Option ℤ → TickerValue
price_value factor none = zero_price
price_value factor (some price) = quotient price factor

-- The entry of one pool.
unfoldable pub ticker_value : Pools → ℕ → ℕ → Option ℤ → HashMap TickerValue
unfolding asset_factor price_factor_i16
ticker_value pool base_volume quote_volume last_price =
    (
      "last_price",
      price_value (price_factor_i16 pool.base_asset_decimals pool.quote_asset_decimals) last_price,
    )
    ∷ ("base_volume", quotient (pos base_volume) (asset_factor pool.base_asset_decimals))
    ∷ ("quote_volume", quotient (pos quote_volume) (asset_factor pool.quote_asset_decimals))
    ∷ ("isFrozen", integer 0)
    ∷ []

-- What the reads of one request answer. The two volume requests, for base and for quote volumes, each
-- read the clock and the pools twice, and then the volumes.
pub record Reads : Type 0 where
  pub volume_clock : Bool → ℤ
  pub all_pools : Bool → Result (List Pools) DeepBookError
  pub named_pools : Bool → Result (List Pools) DeepBookError
  pub volumes : ℤ → ℤ → List String → Bool → Result (List (String × ℤ)) DeepBookError
  pub get_pools : Result (List Pools) DeepBookError
  pub clock : ℤ
  -- The newest price of every pool between two times.
  pub last_prices : ℤ → ℤ → Result (List (String × ℤ)) DeepBookError

-- `volume_in_base.to_string()`.
abbrev pub show_bool : Bool → String
show_bool true = "true"
show_bool false = "false"

unfoldable pub fetch_historical_volume : Reads → Params → Bool → Result (HashMap ℕ) DeepBookError
unfolding all_historical_volume insert
fetch_historical_volume r params volume_in_base = do
  pools ← r.all_pools volume_in_base
  again ← r.named_pools volume_in_base
  all_historical_volume r.volumes (r.volume_clock volume_in_base) pools again
      (insert "volume_in_base" (show_bool volume_in_base) params)

-- `response`, with the entries of the pools that are left.
unfoldable pub add_tickers :
    HashMap ℕ
    → HashMap ℕ
    → HashMap ℤ
    → HashMap (HashMap TickerValue)
    → HashMap Pools
    → HashMap (HashMap TickerValue)
unfolding ticker_value get insert
add_tickers base_volumes quote_volumes last_price_map response [] = response
add_tickers base_volumes quote_volumes last_price_map response ((pool_id, pool) ∷ pool_map) =
    add_tickers base_volumes quote_volumes last_price_map
      (insert pool.pool_name
        (ticker_value pool (unwrap_or 0 (get pool.pool_name base_volumes))
          (unwrap_or 0 (get pool.pool_name quote_volumes)) (get pool_id last_price_map))
        response)
      pool_map

unfoldable pub ticker : Reads → Params → Result (HashMap (HashMap TickerValue)) DeepBookError
unfolding fetch_historical_volume add_tickers collect
ticker r params = do
  base_volumes ← fetch_historical_volume r params true
  quote_volumes ← fetch_historical_volume r params false
  pools ← r.get_pools
  last_prices ← r.last_prices (sub_i64 r.clock (pos day_ms)) r.clock
  ok (
      add_tickers base_volumes quote_volumes (collect last_prices) []
        (collect (map (λ (p : Pools). (p.pool_id, p)) pools)))
