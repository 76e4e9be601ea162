-- ===== src/Server/MarginMetrics.antt =====
-- deepbookv3/crates/server/src/margin_metrics/metrics.rs, `update_pool_metrics`: the gauges of a margin
-- pool. Floating point quotients are not evaluated here.
pub mod Laws
use rain_protocol.Prelude.{
  ℕ, String, Bool, ◌&&◌, List, [], ◌∷◌, Option, none, some, ltb, str_eq, if◌then◌else◌,
}
use rain_protocol.Prelude.Int.{ℤ, pos}
use rain_protocol.Server.Poller.{MarginPoolState}

-- The values that the gauges are set to. `scaled n d` is `n / 10^d`, `percent a b` is `(a / b) * 100`.
pub data Measure : Type 0 where
  scaled : ℕ → ℤ → Measure
  quotient : ℕ → ℕ → Measure
  percent : ℕ → ℕ → Measure
  constant : ℕ → Measure
  infinity : Measure

-- A vector of gauges, with the labels `pool_id` and `asset_type`.
abbrev pub Gauge : Type 0
Gauge = String → String → Option Measure

-- `.with_label_values(&[pool_id, asset_type]).set(value)`.
unfoldable pub set : String → String → Measure → Gauge → Gauge
set pool_id asset_type value gauge p a =
    if str_eq p pool_id && str_eq a asset_type then some value else gauge p a

pub record MarginMetrics : Type 0 where
  pub total_supply : Gauge
  pub total_borrow : Gauge
  pub vault_balance : Gauge
  pub supply_cap : Gauge
  pub interest_rate : Gauge
  pub available_withdrawal : Gauge
  pub utilization_rate : Gauge
  pub solvency_ratio : Gauge
  pub available_liquidity_pct : Gauge

-- `if solvency.is_finite() { ... }`.
abbrev pub set_if_finite : String → String → Measure → Gauge → Gauge
set_if_finite pool_id asset_type infinity gauge = gauge
set_if_finite pool_id asset_type value gauge = set pool_id asset_type value gauge

-- The arguments of the call in `poll_once` are the fields of the state, and the decimals.
unfoldable pub update_pool_metrics : MarginPoolState → ℤ → MarginMetrics → MarginMetrics
unfolding set
update_pool_metrics s decimals m =
    let put = set s.pool_id s.asset_type in
    record {
      total_supply = put (scaled s.total_supply decimals) m.total_supply;
      total_borrow = put (scaled s.total_borrow decimals) m.total_borrow;
      vault_balance = put (scaled s.vault_balance decimals) m.vault_balance;
      supply_cap = put (scaled s.supply_cap decimals) m.supply_cap;
      interest_rate = put (scaled s.interest_rate (pos 9)) m.interest_rate;
      available_withdrawal = put (scaled s.available_withdrawal decimals) m.available_withdrawal;
      utilization_rate =
          put (if ltb 0 s.total_supply then quotient s.total_borrow s.total_supply else constant 0)
            m.utilization_rate;
      solvency_ratio =
          set_if_finite s.pool_id s.asset_type
            (if ltb 0 s.total_borrow then quotient s.vault_balance s.total_borrow else infinity)
            m.solvency_ratio;
      available_liquidity_pct =
          put
            (if ltb 0 s.total_supply then percent s.vault_balance s.total_supply else constant 100)
            m.available_liquidity_pct;
    }

-- The calls of one or more polls, in their order.
unfoldable pub update_all : List (MarginPoolState × ℤ) → MarginMetrics → MarginMetrics
unfolding update_pool_metrics
update_all [] m = m
update_all ((state, decimals) ∷ rest) m = update_all rest (update_pool_metrics state decimals m)
