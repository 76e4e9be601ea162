-- ===== src/Server/PriceChange.antt =====
-- deepbookv3/crates/server/src/server.rs, `price_change_24h` and `high_low_prices_24h`: what `summary`
-- shows of the prices of the last day, and the maps of pools that it makes for them.
pub mod Laws
use rain_protocol.Prelude.{ℕ, ◌*◌, String, List, [], ◌∷◌, map, Option, none, some, unwrap_or}
use rain_protocol.Prelude.Int.{ℤ, pos, ◌+ℤ◌, ◌-ℤ◌}
use rain_protocol.Prelude.Words.{sub_i64}
use rain_protocol.Prelude.Map.{HashMap, get, insert, collect}
use rain_protocol.Prelude.Result.{Result, ok, err, ◌>>=◌}
use rain_protocol.Schema.Row.Api.{Pools}
use rain_protocol.Server.Error.{DeepBookError}
use rain_protocol.Server.Params.{day_ms}
use rain_protocol.Server.Ticker.{price_factor_i16, wrap_i16}

-- By pool name, the id of the pool and the decimals of its assets.
unfoldable pub pool_metadata : List Pools → HashMap (String × (ℤ × ℤ))
unfolding collect insert
pool_metadata pools = collect (
    map (λ (p : Pools). (p.pool_name, (p.pool_id, (p.base_asset_decimals, p.quote_asset_decimals))))
      pools)

-- By pool id, the decimals of the assets.
unfoldable pub pool_decimals : HashMap (String × (ℤ × ℤ)) → HashMap (ℤ × ℤ)
unfolding collect insert
pool_decimals metadata = collect (map (λ (name, (pool_id, decimals)). (pool_id, decimals)) metadata)

-- A change in percent: `percent e r f` is `((r / f) / (e / f) - 1.0) * 100.0` in floating point
-- numbers, left unevaluated.
pub data Change : Type 0 where
  no_change : Change
  percent : ℤ → ℤ → ℕ → Change

abbrev pub change_of : ℕ → Result ℤ DeepBookError → Result ℤ DeepBookError → Change
change_of factor (ok earliest) (ok most_recent) = percent earliest most_recent factor
change_of factor (err e) recent = no_change
change_of factor (ok earliest) (err e) = no_change

abbrev pub two_days_ms : ℕ
two_days_ms = 48 * 60 * 60 * 1000

-- `get_price start end pool_id` is `Reader::get_price`.
module _ (get_price : ℤ → ℤ → String → Result ℤ DeepBookError) (now : ℤ) where
  unfoldable pub pool_change : String → ℤ → ℤ → Change
  unfolding price_factor_i16
  pool_change pool_id base_decimals quote_decimals =
      let timestamp_24h_ago = sub_i64 now (pos day_ms) in
      let timestamp_48h_ago = sub_i64 now (pos two_days_ms) in
      change_of (price_factor_i16 base_decimals quote_decimals)
        (get_price timestamp_48h_ago timestamp_24h_ago pool_id)
        (get_price timestamp_24h_ago now pool_id)

  unfoldable pub add_changes : HashMap Change → HashMap (String × (ℤ × ℤ)) → HashMap Change
  unfolding pool_change insert
  add_changes response [] = response
  add_changes response ((pool_name, (pool_id, (base_decimals, quote_decimals))) ∷ metadata) =
      add_changes (insert pool_name (pool_change pool_id base_decimals quote_decimals) response)
        metadata

  -- Errors of `get_price` are no errors of the request.
  unfoldable pub price_change_24h : HashMap (String × (ℤ × ℤ)) → HashMap Change
  unfolding add_changes
  price_change_24h metadata = add_changes [] metadata

-- A price as a floating point number: `price / 10f64.powi(exponent)`, left unevaluated.
pub record Scaled : Type 0 where
  pub price : ℤ
  pub exponent : ℤ

-- `(9 - base_decimals + quote_decimals) as i32` of two `i16`.
unfoldable pub scaling_exponent : ℤ → ℤ → ℤ
unfolding wrap_i16 ◌+ℤ◌ ◌-ℤ◌
scaling_exponent base_decimals quote_decimals =
    wrap_i16 (wrap_i16 (pos 9 -ℤ base_decimals) +ℤ quote_decimals)

unfoldable pub high_low : ℤ × ℤ → Option ℤ → Option ℤ → Scaled × Scaled
unfolding scaling_exponent
high_low (base_decimals, quote_decimals) max_price min_price =
    let exponent = scaling_exponent base_decimals quote_decimals in
    (
      record { price = unwrap_or (pos 0) max_price; exponent = exponent },
      record { price = unwrap_or (pos 0) min_price; exponent = exponent },
    )

abbrev pub add_known :
    HashMap (Scaled × Scaled)
    → String
    → Option ℤ
    → Option ℤ
    → Option (ℤ × ℤ)
    → HashMap (Scaled × Scaled)
add_known price_map pool_id max_price min_price none = price_map
add_known price_map pool_id max_price min_price (some decimals) =
    insert pool_id (high_low decimals max_price min_price) price_map

-- Rows of pools that are not known are skipped.
unfoldable pub add_prices :
    HashMap (ℤ × ℤ)
    → HashMap (Scaled × Scaled)
    → List (String × Option ℤ × Option ℤ)
    → HashMap (Scaled × Scaled)
unfolding high_low get insert
add_prices decimals price_map [] = price_map
add_prices decimals price_map ((pool_id, max_price, min_price) ∷ results) =
    add_prices decimals (add_known price_map pool_id max_price min_price (get pool_id decimals))
      results

-- `query start end` answers the greatest and the least price of each pool with a fill in between.
unfoldable pub high_low_prices_24h :
    (ℤ → ℤ → Result (List (String × Option ℤ × Option ℤ)) DeepBookError)
    → ℤ
    → HashMap (ℤ × ℤ)
    → Result (HashMap (Scaled × Scaled)) DeepBookError
unfolding add_prices
high_low_prices_24h query end_time decimals = do
  results ← query (sub_i64 end_time (pos day_ms)) end_time
  ok (add_prices decimals [] results)
