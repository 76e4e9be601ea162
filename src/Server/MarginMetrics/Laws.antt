-- ===== src/Server/MarginMetrics/Laws.antt =====
-- What the gauges show.
use rain_protocol.Prelude.{
  ◌≡◌, refl, ◌∙◌, String, false, ◌&&◌, List, [], ◌∷◌, ◌++◌, All, Option, some, ltb, str_eq, eq_refl,
  if◌then◌else◌, Bool-cases, inl, inr,
}
use rain_protocol.Prelude.Int.{ℤ, pos}
use rain_protocol.Server.Poller.{MarginPoolState}
use rain_protocol.Server.MarginMetrics.{
  Measure, scaled, quotient, percent, constant, MarginMetrics, set, update_pool_metrics, update_all,
}

-- The nine gauges at a pair of labels.
abbrev pub shown : MarginMetrics → String → String → List (Option Measure)
shown m p a =
    m.total_supply p a
    ∷ m.total_borrow p a
    ∷ m.vault_balance p a
    ∷ m.supply_cap p a
    ∷ m.interest_rate p a
    ∷ m.available_withdrawal p a
    ∷ m.utilization_rate p a
    ∷ m.available_liquidity_pct p a
    ∷ m.solvency_ratio p a
    ∷ []

-- What they show of a state, with `before` the solvency ratio from before.
abbrev pub state_of : MarginPoolState → ℤ → Option Measure → List (Option Measure)
state_of s decimals before =
    some (scaled s.total_supply decimals)
    ∷ some (scaled s.total_borrow decimals)
    ∷ some (scaled s.vault_balance decimals)
    ∷ some (scaled s.supply_cap decimals)
    ∷ some (scaled s.interest_rate (pos 9))
    ∷ some (scaled s.available_withdrawal decimals)
    ∷ some (if ltb 0 s.total_supply then quotient s.total_borrow s.total_supply else constant 0)
    ∷ some (if ltb 0 s.total_supply then percent s.vault_balance s.total_supply else constant 100)
    ∷ (if ltb 0 s.total_borrow then some (quotient s.vault_balance s.total_borrow) else before)
    ∷ []

-- An update of other gauges than those of a state.
abbrev pub IsElsewhere : MarginPoolState → MarginPoolState × ℤ → Type 0
IsElsewhere s u = (str_eq s.pool_id u.0.pool_id && str_eq s.asset_type u.0.asset_type) ≡ false

shown-update_same :
    (s : MarginPoolState) (decimals : ℤ) (m : MarginMetrics)
    → shown (update_pool_metrics s decimals m) s.pool_id s.asset_type
      ≡ state_of s decimals (m.solvency_ratio s.pool_id s.asset_type)
unfolding update_pool_metrics set
shown-update_same s decimals m = elim (Bool-cases (ltb 0 s.total_borrow)) [
  | inl h ↦ rw (h, eq_refl s.pool_id, eq_refl s.asset_type) refl
  | inr h ↦ rw (h, eq_refl s.pool_id, eq_refl s.asset_type) refl
]

shown-update_other :
    (s : MarginPoolState) (u : MarginPoolState × ℤ) (m : MarginMetrics)
    → IsElsewhere s u
    → shown (update_pool_metrics u.0 u.1 m) s.pool_id s.asset_type ≡ shown m s.pool_id s.asset_type
unfolding update_pool_metrics set
shown-update_other s u m h = elim (Bool-cases (ltb 0 u.0.total_borrow)) [
  | inl e ↦ rw (e, h) refl
  | inr e ↦ rw (e, h) refl
]

shown-update_all_other :
    (s : MarginPoolState) (rest : List (MarginPoolState × ℤ)) (m : MarginMetrics)
    → All (IsElsewhere s) rest
    → shown (update_all rest m) s.pool_id s.asset_type ≡ shown m s.pool_id s.asset_type
unfolding update_all
shown-update_all_other s [] m h = refl
shown-update_all_other s ((u, d) ∷ rest) m (apart, h) =
    shown-update_all_other s rest (update_pool_metrics u d m) h
    ∙ shown-update_other s (u, d) m apart

update_all-append :
    (xs ys : List (MarginPoolState × ℤ)) (m : MarginMetrics)
    → update_all (xs ++ ys) m ≡ update_all ys (update_all xs m)
unfolding update_all
update_all-append [] ys m = refl
update_all-append ((s, d) ∷ xs) ys m = update_all-append xs ys (update_pool_metrics s d m)

-- After any sequence of updates the gauges of a pool and its asset show the last state that they were
-- updated with, in the asset's decimals, whatever other pools were updated later, but for the solvency
-- ratio of a pool without loans: that gauge keeps the value that it had before this last update.
pub update_all-shown :
    (earlier later : List (MarginPoolState × ℤ)) (s : MarginPoolState) (decimals : ℤ)
    (m : MarginMetrics)
    → All (IsElsewhere s) later
    → shown (update_all (earlier ++ ((s, decimals) ∷ later)) m) s.pool_id s.asset_type
      ≡ state_of s decimals ((update_all earlier m).solvency_ratio s.pool_id s.asset_type)
unfolding update_all
update_all-shown earlier later s decimals m apart =
    let m' = update_all earlier m in
    rw (update_all-append earlier ((s, decimals) ∷ later) m) (
      shown-update_all_other s later (update_pool_metrics s decimals m') apart
      ∙ shown-update_same s decimals m')
