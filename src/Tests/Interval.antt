-- ===== src/Tests/Interval.antt =====
-- The volumes per interval of a concrete request: two hours, one fill.
use rain_protocol.Prelude.{ℕ, String, Bool, List, [], ◌∷◌, Option, none, some, ◌≡◌, refl, length}
use rain_protocol.Prelude.Int.{ℤ, pos, ◌/ℤ◌}
use rain_protocol.Prelude.Words.{mul_i64, add_i64}
use rain_protocol.Prelude.Text.{split}
use rain_protocol.Prelude.Parse.{parse_i64}
use rain_protocol.Prelude.Decimal.{show_ℤ}
use rain_protocol.Prelude.Map.{HashMap, get, collect}
use rain_protocol.Prelude.Result.{Result, ok, err}
use rain_protocol.Schema.Row.Api.{Pools, OrderFillSummary}
use rain_protocol.Server.Error.{DeepBookError}
use rain_protocol.Server.Params.{Params, get_i64, start_time, end_time, start_time_or_day}
use rain_protocol.Server.Volume.{pool_name_to_id, pool_ids, volume_by_pool}
use rain_protocol.Server.Interval.{
  Volumes, loop, label, get_historical_volume_by_balance_manager_id_with_interval,
}
use rain_protocol.Server.Interval.Same.{HasOnly, every_interval-HasOnly}
use rain_protocol.Tests.Data.{pool_row, fill}

abbrev reader :
    ℕ → ℤ → ℤ → List String → String → Bool → Result (List OrderFillSummary) DeepBookError
reader n start end ids manager in_base = ok (fill ∷ [])

abbrev pools : List Pools
pools = pool_row "0x1" ∷ []

abbrev params : Params
params = ("start_time", "1700000000") ∷ ("end_time", "1700007200") ∷ []

abbrev answer_or_none : Option (Result (HashMap Volumes) DeepBookError) → HashMap Volumes
answer_or_none none = []
answer_or_none (some (ok m)) = m
answer_or_none (some (err e)) = []

abbrev run : Option (Result (HashMap Volumes) DeepBookError)
run =
    get_historical_volume_by_balance_manager_id_with_interval reader 5 (pos 0) pools "SUI_USDC"
      "0xa" params

answered : run ≡ some (ok (answer_or_none run))
unfolding get_historical_volume_by_balance_manager_id_with_interval loop pool_ids split get
    pool_name_to_id collect get_i64 add_i64 start_time_or_day start_time parse_i64 mul_i64 end_time
answered = refl

two_intervals : length (answer_or_none run) ≡ 2
unfolding get_historical_volume_by_balance_manager_id_with_interval loop pool_ids split get
    pool_name_to_id collect get_i64 add_i64 start_time_or_day start_time parse_i64 mul_i64 end_time
    label show_ℤ ◌/ℤ◌
two_intervals = refl

every_interval-HasOnly_example :
    HasOnly (volume_by_pool (pool_name_to_id pools) "0xa" [] (fill ∷ [])) (answer_or_none run)
every_interval-HasOnly_example =
    every_interval-HasOnly reader 5 (pos 0) pools "SUI_USDC" "0xa" params (fill ∷ [])
      (answer_or_none run) (λ n. refl) answered
