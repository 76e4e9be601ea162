-- ===== src/Server/Poller.antt =====
-- deepbookv3/crates/server/src/margin_metrics/poller.rs: the task that polls the margin pools. The
-- tables' rows, the RPC client and the insertion of a snapshot are parameters.
pub mod Laws
pub mod Pools
use rain_protocol.Prelude.{
  ℕ, zero, suc, ◌+◌, ◌*◌, String, Bool, true, false, ◌||◌, List, [], ◌∷◌, ◌++◌, map, filter_map,
  Option, none, some, ltb, if◌then◌else◌,
}
use rain_protocol.Prelude.Int.{ℤ}
use rain_protocol.Prelude.Words.{as_i64}
use rain_protocol.Prelude.Text.{starts_with, drop_chars}
use rain_protocol.Prelude.Map.{HashMap, get, collect}
use rain_protocol.Prelude.Result.{Result, ok, err}

pub record MarginPoolInfo : Type 0 where
  pub pool_id : String
  pub asset_type : String
  pub decimals : ℤ

-- `MarginPoolState` of rpc_client.rs.
pub record MarginPoolState : Type 0 where
  pub pool_id : String
  pub asset_type : String
  pub total_supply : ℕ
  pub total_borrow : ℕ
  pub vault_balance : ℕ
  pub supply_cap : ℕ
  pub interest_rate : ℕ
  pub available_withdrawal : ℕ

-- A floating point quotient, which is not evaluated here.
pub record Quotient : Type 0 where
  pub dividend : ℕ
  pub divisor : ℕ

-- `NewMarginPoolSnapshot` of the schema. `available_liquidity_pct` is the quotient before `* 100.0`.
pub record NewMarginPoolSnapshot : Type 0 where
  pub margin_pool_id : String
  pub asset_type : String
  pub total_supply : ℤ
  pub total_borrow : ℤ
  pub vault_balance : ℤ
  pub supply_cap : ℤ
  pub interest_rate : ℤ
  pub available_withdrawal : ℤ
  pub utilization_rate : Quotient
  pub solvency_ratio : Option Quotient
  pub available_liquidity_pct : Option Quotient

-- An asset type without its prefix.
unfoldable pub normalized : String → String
normalized asset_type =
    if starts_with asset_type "0x" || starts_with asset_type "0X"
    then drop_chars 2 asset_type
    else asset_type

abbrev pub info_of : String → String → Option ℤ → Option MarginPoolInfo
info_of pool_id asset_type none = none
info_of pool_id asset_type (some decimals) =
    some (record { pool_id = pool_id; asset_type = asset_type; decimals = decimals })

-- `get_margin_pools` behind its two queries: the distinct pools, and the assets with their decimals.
unfoldable pub get_margin_pools : List (String × String) → List (String × ℤ) → List MarginPoolInfo
get_margin_pools pools asset_decimals =
    let decimals_map =
      collect (map (λ (asset_type, decimals). (normalized asset_type, decimals)) asset_decimals) in
    filter_map
      (λ (pool_id, asset_type).
        info_of pool_id asset_type (get (normalized asset_type) decimals_map))
      pools

abbrev pub quotient_if : ℕ → ℕ → Option Quotient
quotient_if dividend divisor =
    if ltb 0 divisor then some (record { dividend = dividend; divisor = divisor }) else none

abbrev pub or_nothing : Option Quotient → Quotient
or_nothing none = record { dividend = 0; divisor = 1 }
or_nothing (some q) = q

-- The row that `save_snapshot` inserts.
unfoldable pub snapshot_of : MarginPoolState → NewMarginPoolSnapshot
snapshot_of state = record {
  margin_pool_id = state.pool_id;
  asset_type = state.asset_type;
  total_supply = as_i64 state.total_supply;
  total_borrow = as_i64 state.total_borrow;
  vault_balance = as_i64 state.vault_balance;
  supply_cap = as_i64 state.supply_cap;
  interest_rate = as_i64 state.interest_rate;
  available_withdrawal = as_i64 state.available_withdrawal;
  utilization_rate = or_nothing (quotient_if state.total_borrow state.total_supply);
  solvency_ratio = quotient_if state.vault_balance state.total_borrow;
  available_liquidity_pct = quotient_if state.vault_balance state.total_supply;
}

-- The calls of `update_pool_metrics` so far, the two counters, and the database.
pub record Metrics (S : Type 0) : Type 0 where
  pub updates : List (MarginPoolState × ℤ)
  pub poll_success : ℕ
  pub poll_errors : ℕ
  pub db : S

-- What one poll reads: the pools of the tables, and the RPC client, each of which can fail; and the
-- effect of inserting a snapshot.
pub record Poll (S : Type 0) : Type 0 where
  pub margin_pools : Result (List MarginPoolInfo) String
  pub rpc_client : Result (String → String → Result MarginPoolState String) String
  pub save : NewMarginPoolSnapshot → S → Result S String

-- The iterations of the loop in `run`, as `select!` chooses between them.
pub data Turn (S : Type 0) : Type 0 where
  cancelled : Turn S
  slept : Poll S → Turn S

module _ {S : Type 0} where
  -- A failed insertion is only logged.
  abbrev pub saved : Result S String → S → S
  saved (ok db') db = db'
  saved (err e) db = db

  -- The loop over the pools: a failed query is only logged.
  unfoldable pub poll_pools :
      (String → String → Result MarginPoolState String)
      → (NewMarginPoolSnapshot → S → Result S String)
      → List MarginPoolInfo
      → Metrics S
      → Metrics S
  unfolding snapshot_of
  poll_pools get_pool_state save [] m = m
  poll_pools get_pool_state save (pool_info ∷ rest) m =
      elim (get_pool_state pool_info.pool_id pool_info.asset_type) [
        | ok state ↦ poll_pools get_pool_state save rest (record m {
          updates = m.updates ++ ((state, pool_info.decimals) ∷ []);
          db = saved (save (snapshot_of state) m.db) m.db;
        })
        | err e ↦ poll_pools get_pool_state save rest m
      ]

  -- Without pools no client is made.
  unfoldable pub poll_with :
      Result (List MarginPoolInfo) String
      → Result (String → String → Result MarginPoolState String) String
      → (NewMarginPoolSnapshot → S → Result S String)
      → Metrics S
      → Result Unit String × Metrics S
  unfolding poll_pools
  poll_with (err e) client save m = (err e, m)
  poll_with (ok []) client save m = (ok tt, m)
  poll_with (ok (p ∷ pools)) (err e) save m = (err e, m)
  poll_with (ok (p ∷ pools)) (ok get_pool_state) save m =
      (ok tt, poll_pools get_pool_state save (p ∷ pools) m)

  unfoldable pub poll_once : Poll S → Metrics S → Result Unit String × Metrics S
  unfolding poll_with
  poll_once poll m = poll_with poll.margin_pools poll.rpc_client poll.save m

  abbrev pub counted : Result Unit String → Metrics S → Metrics S
  counted (ok _) m = record m { poll_success = m.poll_success + 1 }
  counted (err e) m = record m { poll_errors = m.poll_errors + 1 }

  unfoldable pub run : List (Turn S) → Metrics S → Metrics S
  unfolding poll_once
  run [] m = m
  run (cancelled ∷ rest) m = m
  run (slept poll ∷ rest) m = let (result, m') = poll_once poll m in run rest (counted result m')
