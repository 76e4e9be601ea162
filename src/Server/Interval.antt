-- ===== src/Server/Interval.antt =====
-- deepbookv3/crates/server/src/server.rs,
-- `get_historical_volume_by_balance_manager_id_with_interval`: one entry for each interval.
pub mod Laws
pub mod Same
use rain_protocol.Prelude.{
  ℕ, zero, suc, ◌+◌, String, List, [], ◌∷◌, Bool, true, false, Option, none, some, unwrap_or, ◌<>◌,
}
use rain_protocol.Prelude.Int.{ℤ, pos, ◌/ℤ◌, leb_ℤ}
use rain_protocol.Prelude.Words.{add_i64, mul_i64}
use rain_protocol.Prelude.Decimal.{show_ℤ}
use rain_protocol.Prelude.Map.{HashMap, insert}
use rain_protocol.Prelude.Result.{Result, ok, err, ◌>>=◌}
use rain_protocol.Schema.Row.Api.{Pools, OrderFillSummary}
use rain_protocol.Server.Error.{DeepBookError, bad_request}
use rain_protocol.Server.Params.{Params, get_i64, end_time, start_time_or_day, volume_in_base}
use rain_protocol.Server.Volume.{pool_name_to_id, pool_ids, volume_by_pool, no_pools, non_empty_or}

-- What one interval is answered with.
abbrev pub Volumes : Type 0
Volumes = HashMap (ℤ × ℤ)

-- `format!("[{}, {}]", current_start / 1000, current_end / 1000)`.
unfoldable pub label : ℤ → ℤ → String
label current_start current_end =
    "[" <> show_ℤ (current_start /ℤ 1000) <> ", " <> show_ℤ (current_end /ℤ 1000) <> "]"

-- `query n` is the answer to the n-th call of `get_order_fill_summary`, whose arguments are the same
-- in every round: `start_time` and `end_time`, not the interval's ends.
module _ (query : ℕ → Result (List OrderFillSummary) DeepBookError)
    (summarise : List OrderFillSummary → Volumes) (interval_ms end : ℤ) where
  -- The `while` loop, on fuel: `none` says that it is still running.
  unfoldable pub loop :
      ℕ → ℕ → ℤ → HashMap Volumes → Option (Result (HashMap Volumes) DeepBookError)
  loop zero n current_start metrics = none
  loop (suc fuel) n current_start metrics =
      let current_end = add_i64 current_start interval_ms in
      elim (leb_ℤ current_end end) [
        | true ↦ elim (query n) [
          | ok results ↦
              loop fuel (n + 1) current_end
                (insert (label current_start current_end) (summarise results) metrics)
          | err e ↦ some (err e)
        ]
        | false ↦ some (ok metrics)
      ]

-- The checks before the loop, and the loop with the given fuel. `reader n` is the n-th query.
unfoldable pub get_historical_volume_by_balance_manager_id_with_interval :
    (ℕ → ℤ → ℤ → List String → String → Bool → Result (List OrderFillSummary) DeepBookError)
    → ℕ
    → ℤ
    → List Pools
    → String
    → String
    → Params
    → Option (Result (HashMap Volumes) DeepBookError)
get_historical_volume_by_balance_manager_id_with_interval reader fuel now pools pool_names
      balance_manager_id params =
    let name_to_id = pool_name_to_id pools in
    let ids = pool_ids name_to_id pool_names in
    let interval = unwrap_or (pos 3600) (get_i64 "interval" params) in
    let end = end_time now params in
    let start = start_time_or_day end params in
    let run =
      loop (λ n. reader n start end ids balance_manager_id (volume_in_base params))
        (volume_by_pool name_to_id balance_manager_id []) (mul_i64 1000 interval) end fuel 0 start
        [] in
    elim ids [
      | [] ↦ some (err no_pools)
      | id ∷ rest ↦ elim (leb_ℤ interval (pos 0)) [
        | true ↦ some (err (bad_request "Interval must be greater than 0"))
        | false ↦ run
      ]
    ]
