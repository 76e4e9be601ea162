-- ===== src/Server/Ticker/Laws.antt =====
-- What the ticker shows of a pool.
use rain_protocol.Prelude.{
  ◌+◌, ◌-◌, ◌^◌, ℕ, ◌≡◌, ◌≢◌, refl, ap, inl, inr, String, Bool, true, false, List, [], ◌∷◌, map,
  All, Among, Option, none, some, unwrap_or, eq_iff, arith,
}
use rain_protocol.Prelude.Int.{ℤ, pos}
use rain_protocol.Prelude.Words.{sub_i64}
use rain_protocol.Prelude.Map.{HashMap, get, insert, collect, get-insert}
use rain_protocol.Prelude.Result.{ok}
use rain_protocol.Prelude.Transfer.{DistinctBy, DistinctBy-map, Among-map}
use rain_protocol.Prelude.Entries.{collect_distinct}
use rain_protocol.Schema.Row.Api.{Pools}
use rain_protocol.Schema.Row.Trading.{OrderFill}
use rain_protocol.Server.Params.{
  Params, day_ms, start_time, end_time, get_i64, start_time_or_day, volume_in_base,
}
use rain_protocol.Server.Volume.{aggregate, pool_name_to_id}
use rain_protocol.Server.Volume.Laws.{IsFree, names_of, total, all_historical_volume-ids}
use rain_protocol.Server.Volume.ByPool.{AreApart, volumes_at, get-aggregate-at, pool_ids-all}
use rain_protocol.Server.Ticker.LastPrice.{IsLastPrice, IsLastPrices, last_price_map_lem}
use rain_protocol.Server.Ticker.Factors.{FitDecimals, asset_factor_exact, price_factor_i16_exact}
use rain_protocol.Server.Ticker.{
  Reads, TickerValue, quotient, zero_price, integer, price_value, ticker, ticker_value, add_tickers,
  fetch_historical_volume, show_bool,
}

module _ (base_volumes quote_volumes : HashMap ℕ) (last_price_map : HashMap ℤ) where
  abbrev entry_of : String → Pools → HashMap TickerValue
  entry_of pool_id pool =
      ticker_value pool (unwrap_or 0 (get pool.pool_name base_volumes))
        (unwrap_or 0 (get pool.pool_name quote_volumes)) (get pool_id last_price_map)

  get-add_tickers_other :
      (name : String) (response : HashMap (HashMap TickerValue)) (pool_map : HashMap Pools)
      → All (λ e. name ≢ e.1.pool_name) pool_map
      → get name (add_tickers base_volumes quote_volumes last_price_map response pool_map)
        ≡ get name response
  unfolding add_tickers
  get-add_tickers_other name response [] others = refl
  get-add_tickers_other name response ((id, q) ∷ pool_map) (ne, others) =
      rw
        (
          get-add_tickers_other name (insert q.pool_name (entry_of id q) response) pool_map others,
          get-insert,
        )
        (ground (arith, eq_iff q.pool_name name))

  get-add_tickers :
      (id : String) (pool : Pools) (response : HashMap (HashMap TickerValue))
      (pool_map : HashMap Pools)
      → DistinctBy (λ (e : String × Pools). e.1.pool_name) pool_map
      → Among (id, pool) pool_map
      → get pool.pool_name (add_tickers base_volumes quote_volumes last_price_map response pool_map)
        ≡ some (entry_of id pool)
  unfolding add_tickers
  get-add_tickers id pool response [] d a = elim a [ ]
  get-add_tickers id pool response ((j, q) ∷ pool_map) (fresh, d) (inl same) =
      let same_id : j ≡ id = ap (λ e. e.0) same in
      let same_pool : q ≡ pool = ap (λ e. e.1) same in
      rw
        (
          ← same_id,
          ← same_pool,
          get-add_tickers_other q.pool_name (insert q.pool_name (entry_of j q) response) pool_map
              fresh,
          get-insert,
        )
        (ground (arith, eq_iff q.pool_name q.pool_name))
  get-add_tickers id pool response ((j, q) ∷ pool_map) (fresh, d) (inr later) =
      get-add_tickers id pool (insert q.pool_name (entry_of j q) response) pool_map d later

-- The parameter that is set leaves the others as they are.
end_time_kept :
    (now : ℤ) (v : String) (params : Params)
    → end_time now (insert "volume_in_base" v params) ≡ end_time now params
unfolding end_time get_i64
end_time_kept now v params = rw (end_time, get_i64, get-insert) refl

start_time_kept :
    (end : ℤ) (v : String) (params : Params)
    → start_time_or_day end (insert "volume_in_base" v params) ≡ start_time_or_day end params
unfolding start_time_or_day start_time get_i64
start_time_kept end v params = rw (start_time_or_day, start_time, get_i64, get-insert) refl

volume_in_base_set :
    (in_base : Bool) (params : Params)
    → volume_in_base (insert "volume_in_base" (show_bool in_base) params) ≡ in_base
unfolding volume_in_base
volume_in_base_set true params = rw (volume_in_base, get-insert) refl
volume_in_base_set false params = rw (volume_in_base, get-insert) refl

module _ (r : Reads) (params : Params) (pools : List Pools) where
  -- What the request for base or for quote volumes reads: the pools, none with a comma in its name, and
  -- the volumes of their ids over the requested range.
  pub record IsVolumes (in_base : Bool) (rows : List (String × ℤ)) : Type 0 where
    pub opened : r.all_pools in_base ≡ ok pools
    pub opened_again : r.named_pools in_base ≡ ok pools
    pub free : All (IsFree b',') (names_of pools)
    pub answered :
        let end = end_time (r.volume_clock in_base) params in
        r.volumes (start_time_or_day end params) end (map (λ (p : Pools). p.pool_id) pools) in_base
        ≡ ok rows

fetch_historical_volume_lem :
    (r : Reads) (params : Params) (first : Pools) (rest : List Pools) (in_base : Bool)
    (rows : List (String × ℤ))
    → AreApart (first ∷ rest)
    → IsVolumes r params (first ∷ rest) in_base rows
    → fetch_historical_volume r params in_base
      ≡ ok (aggregate (pool_name_to_id (first ∷ rest)) [] rows)
unfolding fetch_historical_volume
fetch_historical_volume_lem r params first rest in_base rows apart v =
    rw (v.opened, v.opened_again)
      (rw
        (
          (all_historical_volume-ids r.volumes (r.volume_clock in_base)
              (insert "volume_in_base" (show_bool in_base) params) first rest (first ∷ rest)
              v.free).0,
          pool_ids-all (first ∷ rest) apart,
          end_time_kept (r.volume_clock in_base) (show_bool in_base) params,
          start_time_kept (end_time (r.volume_clock in_base) params) (show_bool in_base) params,
          volume_in_base_set in_base params,
          v.answered,
        )
        refl)

abbrev keyed : Pools → String × Pools
keyed p = (p.pool_id, p)

-- The sum modulo 2^64 of the volumes of the rows with this pool id.
abbrev pub volume_of : String → List (String × ℤ) → ℕ
volume_of id rows = unwrap_or 0 (total (volumes_at id rows))

abbrev pub priced : ℕ → Option ℤ → TickerValue
priced factor none = zero_price
priced factor (some price) = quotient price factor

-- What is shown of a pool whose assets have these decimals.
abbrev pub entry : ℕ → ℕ → ℕ → ℕ → Option ℤ → HashMap TickerValue
entry base_decimals quote_decimals base_volume quote_volume last =
    ("last_price", priced (10 ^ (9 + quote_decimals - base_decimals)) last)
    ∷ ("base_volume", quotient (pos base_volume) (10 ^ base_decimals))
    ∷ ("quote_volume", quotient (pos quote_volume) (10 ^ quote_decimals))
    ∷ ("isFrozen", integer 0)
    ∷ []

price_value-priced : (factor : ℕ) (last : Option ℤ) → price_value factor last ≡ priced factor last
price_value-priced factor none = refl
price_value-priced factor (some price) = refl

ticker_value-entry :
    (pool : Pools) (b q base_volume quote_volume : ℕ) (last : Option ℤ)
    → pool.base_asset_decimals ≡ pos b
    → pool.quote_asset_decimals ≡ pos q
    → FitDecimals b q
    → ticker_value pool base_volume quote_volume last ≡ entry b q base_volume quote_volume last
unfolding ticker_value
ticker_value-entry pool b q base_volume quote_volume last base quote fit =
    rw
      (
        base,
        quote,
        asset_factor_exact b fit.0,
        asset_factor_exact q fit.1,
        price_factor_i16_exact b q fit,
        price_value-priced,
      )
      refl

-- Suppose no two pools have the same id or the same name, none has a comma in its name, all reads of
-- the pools answer with the same pools, the base and the quote volumes of all their ids are read over
-- the requested range, and the query of the last prices answers as PostgreSQL documents. Then `ticker`
-- answers, and each pool whose decimals are in the range of `FitDecimals` has an entry under its name:
-- the sum modulo 2^64 of the base volumes of the rows with its id, by ten to the power of the base
-- asset's decimals; the same of the quote volumes, by that of the quote asset's decimals; and the price
-- of a newest fill of the pool in the last 24 hours, by ten to the power 9 - base + quote, or zero if
-- there is no such fill.
pub ticker_lem :
    (r : Reads) (params : Params) (fills : List OrderFill) (pools : List Pools)
    (base_rows quote_rows last_rows : List (String × ℤ)) (pool : Pools) (b q : ℕ)
    → IsVolumes r params pools true base_rows
    → IsVolumes r params pools false quote_rows
    → r.get_pools ≡ ok pools
    → AreApart pools
    → r.last_prices (sub_i64 r.clock (pos day_ms)) r.clock ≡ ok last_rows
    → IsLastPrices fills (sub_i64 r.clock (pos day_ms)) r.clock last_rows
    → Among pool pools
    → pool.base_asset_decimals ≡ pos b
    → pool.quote_asset_decimals ≡ pos q
    → FitDecimals b q
    → (out : HashMap (HashMap TickerValue)) × (last : Option ℤ) × (ticker r params ≡ ok out)
      × (get pool.pool_name out
          ≡ some (
              entry b q
                (volume_of pool.pool_id base_rows)
                (volume_of pool.pool_id quote_rows)
                last))
      × IsLastPrice fills (sub_i64 r.clock (pos day_ms)) r.clock pool.pool_id last
unfolding ticker
ticker_lem r params fills [] base_rows quote_rows last_rows pool b q base quote found apart answered
      last_prices among base_decimals quote_decimals fit =
    elim among [ ]
ticker_lem r params fills (p ∷ rest) base_rows quote_rows last_rows pool b q base quote found
      (ids, names) answered last_prices among base_decimals quote_decimals fit =
    let pools = p ∷ rest in
    let base_volumes = aggregate (pool_name_to_id pools) [] base_rows in
    let quote_volumes = aggregate (pool_name_to_id pools) [] quote_rows in
    let entries = map keyed pools in
    let last = get pool.pool_id (collect last_rows) in
    (
      add_tickers base_volumes quote_volumes (collect last_rows) [] (collect entries),
      last,
      rw
          (
            fetch_historical_volume_lem r params p rest true base_rows (ids, names) base,
            fetch_historical_volume_lem r params p rest false quote_rows (ids, names) quote,
            found,
            answered,
          )
          refl,
      rw
          (
            collect_distinct entries (DistinctBy-map (λ (e : String × Pools). e.0) keyed pools ids),
            get-add_tickers base_volumes quote_volumes (collect last_rows) pool.pool_id pool []
                entries (DistinctBy-map (λ (e : String × Pools). e.1.pool_name) keyed pools names)
                (Among-map keyed pool pools among),
            get-aggregate-at pools (ids, names) pool base_rows among,
            get-aggregate-at pools (ids, names) pool quote_rows among,
          )
          (ap some (
            ticker_value-entry pool b q (volume_of pool.pool_id base_rows)
              (volume_of pool.pool_id quote_rows) last base_decimals quote_decimals fit)),
      last_price_map_lem fills (sub_i64 r.clock (pos day_ms)) r.clock last_rows pool.pool_id
          last_prices,
    )
