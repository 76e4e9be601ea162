-- ===== src/Tests/Server.antt =====
-- The API's answers at concrete requests.
use rain_protocol.Prelude.{
  ◌+◌, ◌-◌, ◌≤◌, ◌<◌, ◌%◌, ◌^◌, String, true, List, [], ◌∷◌, none, some, map, All, Among, ◌⊎◌, ◌≡◌,
  ◌↔◌, refl, arith,
}
use rain_protocol.Prelude.Int.{ℤ, pos, ◌+ℤ◌, ◌≤ℤ◌, ◌<ℤ◌}
use rain_protocol.Prelude.Words.{IsI64}
use rain_protocol.Prelude.Map.{HashMap, get}
use rain_protocol.Prelude.Text.{split, trim, trim_start, trim_end, is_whitespace}
use rain_protocol.Prelude.Parse.{parse_u64, parse_u128}
use rain_protocol.Prelude.Result.{Result, ok}
use rain_protocol.Server.Error.{DeepBookError}
use rain_protocol.Server.TradeId.{calculate_trade_id, calculate_trade_id_exact}
use rain_protocol.Server.Orderbook.{orderbook_ticks, ticks_from_mid, orderbook_ticks_bounds}
use rain_protocol.Server.Decimals.{price_factor, price_factor_lem}
use rain_protocol.Server.Status.{Watermark, StatusQueryParams, i64_max, status}
use rain_protocol.Server.Status.Laws.{InLimits, status-is_healthy}
use rain_protocol.Server.Status.Earliest.{status-earliest}
use rain_protocol.Server.Interval.{Volumes, loop}
use rain_protocol.Server.Interval.Laws.{loop_terminates, loop_diverges}
use rain_protocol.Server.Admin.{non_empty_parts}
use rain_protocol.Server.Deposits.{deposited_assets, get_points}
use rain_protocol.Tests.Data.{fill}
use rain_protocol.Server.Deposits.Laws.{
  expected, last_points, deposited_assets-expected, get_points-last,
}

calculate_trade_id_exact_example :
    (calculate_trade_id "170141183460469231731687303715884105733" "12"
      ≡ ok ((2 ^ 127 + 5) % 2 ^ 127 + 12 % 2 ^ 127))
    × (calculate_trade_id "12" "170141183460469231731687303715884105733"
        ≡ calculate_trade_id "170141183460469231731687303715884105733" "12")
    × ((2 ^ 127 + 5) % 2 ^ 127 + 12 % 2 ^ 127 < 2 ^ 128)
unfolding parse_u128
calculate_trade_id_exact_example =
    calculate_trade_id_exact "170141183460469231731687303715884105733" "12" (2 ^ 127 + 5) 12 refl
      refl

abbrev book_params : HashMap String
book_params = ("level", "2") ∷ ("depth", "10") ∷ []

orderbook_ticks_bounds_example : (1 ≤ 5) × (5 < 2 ^ 63) × (get "depth" book_params ≡ none → 5 ≤ 100)
unfolding orderbook_ticks ticks_from_mid parse_u64 get
orderbook_ticks_bounds_example = orderbook_ticks_bounds book_params 5 refl

price_factor_lem_example : (price_factor 9 6 ≡ 10 ^ (9 + 6 - 9)) × (price_factor 18 6 ≡ 0)
price_factor_lem_example = (
  price_factor_lem 9 6 (omega arith) (omega arith) (omega arith),
  price_factor_lem 18 6 (omega arith) (omega arith) (omega arith),
)

abbrev params : StatusQueryParams
params = record { max_checkpoint_lag = pos 100; max_time_lag_seconds = pos 60 }

abbrev balances_watermark : Watermark
balances_watermark = record {
  pipeline = "balances";
  checkpoint_hi = pos 990;
  timestamp_ms_hi = pos 1000000;
  epoch_hi = pos 3;
}

abbrev pools_watermark : Watermark
pools_watermark = record {
  pipeline = "pools";
  checkpoint_hi = pos 880;
  timestamp_ms_hi = pos 995000;
  epoch_hi = pos 3;
}

status-is_healthy_example :
    ((status params (balances_watermark ∷ pools_watermark ∷ []) 1000 (pos 1001000)).is_healthy
      ≡ true)
    ↔ ((pos 0 <ℤ pos 100)
        × All (InLimits params 1000 (pos 1001000)) (balances_watermark ∷ pools_watermark ∷ []))
status-is_healthy_example =
    status-is_healthy params balances_watermark (pools_watermark ∷ []) 1000 (pos 1001000)

abbrev watermarks : List Watermark
watermarks = balances_watermark ∷ pools_watermark ∷ []

status-earliest_example :
    let earliest = (status params watermarks 1000 (pos 1001000)).earliest_checkpoint in
    All (λ (w : Watermark). earliest ≤ℤ w.checkpoint_hi) watermarks
    × (((w : Watermark) × Among w watermarks × (earliest ≡ w.checkpoint_hi))
        ⊎ ((earliest ≡ pos 0) × All (λ (w : Watermark). i64_max ≤ℤ w.checkpoint_hi) watermarks))
status-earliest_example = status-earliest params watermarks 1000 (pos 1001000)

fits : IsI64 (pos 1700086400000 +ℤ pos 3600000)
unfolding ◌+ℤ◌
fits = (omega arith, omega arith)

fits_start : IsI64 (pos 1700000000000 +ℤ pos 3600000)
unfolding ◌+ℤ◌
fits_start = (omega arith, omega arith)

loop_terminates_example :
    (r : Result (HashMap Volumes) DeepBookError) × (loop
        (λ n. ok (fill ∷ []))
        (λ fills. [])
        (pos 3600000)
        (pos 1700086400000)
        86400001
        0
        (pos 1700000000000)
        []
      ≡ some r)
loop_terminates_example =
    loop_terminates (λ n. ok (fill ∷ [])) (λ fills. []) 3600000 (pos 1700086400000) (omega arith)
      fits 86400001 (pos 1700000000000) 0 [] fits_start (omega arith) (omega arith)

loop_diverges_example :
    loop
      (λ n. ok (fill ∷ []))
      (λ fills. [])
      (pos 0)
      (pos 1700086400000)
      1000
      0
      (pos 1700000000000)
      []
    ≡ none
loop_diverges_example =
    loop_diverges (λ n. ok (fill ∷ [])) (λ fills. []) (λ n. fill ∷ []) (λ n. refl)
      (pos 1700000000000) (pos 1700086400000) (omega arith, omega arith) (omega arith) 1000 0 []

abbrev asset_rows : List (String × String)
asset_rows = ("0xb", "SUI") ∷ ("0xa", "DEEP") ∷ ("0xb", "USDC") ∷ []

deposited_assets-expected_example :
    deposited_assets (λ ids. ok asset_rows) "0xa, 0xb,,0xa"
    ≡ ok (expected asset_rows [] ("0xa" ∷ "0xb" ∷ "0xa" ∷ []))
unfolding non_empty_parts split trim trim_start trim_end is_whitespace
deposited_assets-expected_example =
    deposited_assets-expected (λ ids. ok asset_rows) "0xa, 0xb,,0xa" "0xa" ("0xb" ∷ "0xa" ∷ [])
      asset_rows refl refl

abbrev point_rows : List (String × ℤ)
point_rows = ("0xb", pos 12) ∷ []

get_points-last_example :
    get_points (λ ids. ok point_rows) (some "0xa,0xb")
    ≡ ok (map (last_points point_rows) ("0xa" ∷ "0xb" ∷ []))
unfolding non_empty_parts split trim trim_start trim_end is_whitespace
get_points-last_example =
    get_points-last (λ ids. ok point_rows) "0xa,0xb" "0xa" ("0xb" ∷ []) point_rows refl refl
