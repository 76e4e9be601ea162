-- ===== src/Server/Interval/Same.antt =====
-- What the answer per interval says: nothing about the interval
-- (deepbookv3/crates/server/src/server.rs).
use rain_protocol.Prelude.{
  ℕ, zero, suc, ◌+◌, String, Bool, true, false, List, [], ◌∷◌, Option, some, unwrap_or, str_eq, ◌≡◌,
  refl, All, inl, inr, Bool-cases,
}
use rain_protocol.Prelude.Int.{ℤ, pos, leb_ℤ}
use rain_protocol.Prelude.Words.{add_i64, mul_i64}
use rain_protocol.Prelude.Map.{HashMap, insert}
use rain_protocol.Prelude.Result.{Result, ok, err}
use rain_protocol.Schema.Row.Api.{Pools, OrderFillSummary}
use rain_protocol.Server.Error.{DeepBookError, bad_request}
use rain_protocol.Server.Params.{Params, get_i64, end_time, start_time_or_day, volume_in_base}
use rain_protocol.Server.Volume.{pool_name_to_id, pool_ids, volume_by_pool, no_pools}
use rain_protocol.Server.Interval.{
  Volumes, label, loop, get_historical_volume_by_balance_manager_id_with_interval,
}

-- Every entry of the map has this value.
abbrev pub HasOnly : Volumes → HashMap Volumes → Type 0
HasOnly v m = All (λ (name, w). w ≡ v) m

insert-HasOnly :
    (v : Volumes) (k : String) (m : HashMap Volumes) → HasOnly v m → HasOnly v (insert k v m)
unfolding insert
insert-HasOnly v k [] only = (refl, tt)
insert-HasOnly v k ((j, w) ∷ m) (same, only) = elim (Bool-cases (str_eq j k)) [
  | inl e ↦ rw e (refl, only)
  | inr e ↦ rw e (same, insert-HasOnly v k m only)
]

some-ok-injective :
    {A E : Type 0} {a b : A} → Path (Option (Result A E)) (some (ok a)) (some (ok b)) → a ≡ b
some-ok-injective h = cc

module _ (query : ℕ → Result (List OrderFillSummary) DeepBookError)
    (summarise : List OrderFillSummary → Volumes) (interval_ms end : ℤ)
    (fills : List OrderFillSummary) (answers : (n : ℕ) → query n ≡ ok fills) where
  loop-HasOnly :
      (fuel n : ℕ) (current : ℤ) (metrics m : HashMap Volumes)
      → HasOnly (summarise fills) metrics
      → loop query summarise interval_ms end fuel n current metrics ≡ some (ok m)
      → HasOnly (summarise fills) m
  unfolding loop
  loop-HasOnly zero n current metrics m only h = cc
  loop-HasOnly (suc fuel) n current metrics m only h =
      elim (Bool-cases (leb_ℤ (add_i64 current interval_ms) end)) [
        | inr done ↦ rw (← some-ok-injective (rw (done, loop) at h)) only
        | inl more ↦
            loop-HasOnly fuel (n + 1) (add_i64 current interval_ms) _ m
              (insert-HasOnly (summarise fills) (label current (add_i64 current interval_ms))
                metrics only)
              (rw (more, answers n, loop) at h)
      ]

-- A request that is answered passed both checks.
passed :
    (ids : List String) (bad : Bool) (run : Option (Result (HashMap Volumes) DeepBookError))
    {m : HashMap Volumes}
    → (elim ids [
      | [] ↦ some (err no_pools)
      | id ∷ rest ↦ elim bad [
        | true ↦ some (err (bad_request "Interval must be greater than 0"))
        | false ↦ run
      ]
    ])
      ≡ some (ok m)
    → run ≡ some (ok m)
passed [] bad run h = cc
passed (id ∷ rest) true run h = cc
passed (id ∷ rest) false run h = h

-- If the query for the whole range from start to end answers the same rows each time, every interval
-- of the answer has the volumes of the whole range.
pub every_interval-HasOnly :
    (reader : ℕ
      → ℤ
      → ℤ
      → List String
      → String
      → Bool
      → Result (List OrderFillSummary) DeepBookError)
    (fuel : ℕ) (now : ℤ) (pools : List Pools) (pool_names balance_manager_id : String)
    (params : Params) (fills : List OrderFillSummary) (m : HashMap Volumes)
    → ((n : ℕ)
        → reader n
            (start_time_or_day (end_time now params) params)
            (end_time now params)
            (pool_ids (pool_name_to_id pools) pool_names)
            balance_manager_id
            (volume_in_base params)
          ≡ ok fills)
    → get_historical_volume_by_balance_manager_id_with_interval reader fuel now pools pool_names
        balance_manager_id params
      ≡ some (ok m)
    → HasOnly (volume_by_pool (pool_name_to_id pools) balance_manager_id [] fills) m
unfolding get_historical_volume_by_balance_manager_id_with_interval
every_interval-HasOnly reader fuel now pools pool_names balance_manager_id params fills m answers
      h =
    loop-HasOnly _ _ (mul_i64 1000 (unwrap_or (pos 3600) (get_i64 "interval" params)))
      (end_time now params) fills answers fuel 0 _ [] m tt
      (passed (pool_ids (pool_name_to_id pools) pool_names) _ _ h)
