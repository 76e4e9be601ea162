-- ===== src/Tests/Poller.antt =====
-- The poller at concrete pools: one answers, one does not.
use rain_protocol.Prelude.{
  refl, length, keep, not, ◌+◌, ◌<◌, String, List, [], ◌∷◌, ◌++◌, map, filter_map, ◌≡◌, str_eq,
  if◌then◌else◌,
}
use rain_protocol.Prelude.Int.{ℤ, pos}
use rain_protocol.Prelude.Result.{Result, ok, err, concat}
use rain_protocol.Server.Poller.{
  MarginPoolInfo, MarginPoolState, NewMarginPoolSnapshot, get_margin_pools, snapshot_of, Metrics,
  Turn, cancelled, slept, poll_pools, run,
}
use rain_protocol.Server.Poller.Pools.{polled, get_margin_pools-last}
use rain_protocol.Server.Poller.Laws.{
  IsDefined, update_of, polls, succeeds, updates_of, snapshot_of-IsDefined, poll_pools-updates,
  run-counts,
}

abbrev pool_rows : List (String × String)
pool_rows = ("0xp", "2::sui::SUI") ∷ ("0xq", "0x3::usdc::USDC") ∷ []

abbrev asset_rows : List (String × ℤ)
asset_rows = ("0x2::sui::SUI", pos 9) ∷ ("3::usdc::USDC", pos 6) ∷ []

get_margin_pools-last_example :
    get_margin_pools pool_rows asset_rows ≡ filter_map (polled asset_rows) pool_rows
get_margin_pools-last_example = get_margin_pools-last pool_rows asset_rows

-- Both pools are polled: prefixes do not count.
polled_run :
    filter_map (polled asset_rows) pool_rows
    ≡ record { pool_id = "0xp"; asset_type = "2::sui::SUI"; decimals = pos 9 }
      ∷ record { pool_id = "0xq"; asset_type = "0x3::usdc::USDC"; decimals = pos 6 }
      ∷ []
polled_run = refl

abbrev state : MarginPoolState
state = record {
  pool_id = "0xp";
  asset_type = "2::sui::SUI";
  total_supply = 0;
  total_borrow = 0;
  vault_balance = 5;
  supply_cap = 100;
  interest_rate = 3;
  available_withdrawal = 5;
}

snapshot_of-IsDefined_example :
    (0 < (snapshot_of state).utilization_rate.divisor)
    × IsDefined (snapshot_of state).solvency_ratio
    × IsDefined (snapshot_of state).available_liquidity_pct
snapshot_of-IsDefined_example = snapshot_of-IsDefined state

abbrev pools : List MarginPoolInfo
pools =
    record { pool_id = "0xq"; asset_type = "0x3::usdc::USDC"; decimals = pos 6 }
    ∷ record { pool_id = "0xp"; asset_type = "2::sui::SUI"; decimals = pos 9 }
    ∷ []

abbrev get_pool_state : String → String → Result MarginPoolState String
get_pool_state pool_id asset_type = if str_eq pool_id "0xp" then ok state else err "no such object"

abbrev save :
    NewMarginPoolSnapshot → List NewMarginPoolSnapshot → Result (List NewMarginPoolSnapshot) String
save snapshot db = ok (snapshot ∷ db)

abbrev metrics : Metrics (List NewMarginPoolSnapshot)
metrics = record { updates = []; poll_success = 4; poll_errors = 1; db = [] }

poll_pools-updates_example :
    let m' = poll_pools get_pool_state save pools metrics in
    (m'.updates ≡ [] ++ filter_map (update_of get_pool_state) pools)
    × (m'.poll_success ≡ 4)
    × (m'.poll_errors ≡ 1)
poll_pools-updates_example = poll_pools-updates get_pool_state save pools metrics

abbrev turns : List (Turn (List NewMarginPoolSnapshot))
turns =
    slept (record { margin_pools = ok pools; rpc_client = ok get_pool_state; save = save })
    ∷ slept
        (record { margin_pools = err "no connection"; rpc_client = ok get_pool_state; save = save })
    ∷ cancelled
    ∷ slept (record { margin_pools = ok pools; rpc_client = ok get_pool_state; save = save })
    ∷ []

run-counts_example :
    let before = polls turns in
    let m' = run turns metrics in
    (m'.poll_success ≡ 4 + length (keep succeeds before))
    × (m'.poll_errors ≡ 1 + length (keep (λ poll. not (succeeds poll)) before))
    × (m'.updates ≡ [] ++ concat (map updates_of before))
    × (m' ≡ run (map slept before) metrics)
run-counts_example = run-counts turns metrics
