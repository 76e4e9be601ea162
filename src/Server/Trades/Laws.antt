-- ===== src/Server/Trades/Laws.antt =====
-- What the trades of a pool and the changes of its orders show.
use rain_protocol.Prelude.{
  ℕ, ◌^◌, ◌≤◌, ◌≡◌, refl, String, Bool, true, false, not, ◌&&◌, ◌||◌, List, [], ◌∷◌, ◌++◌, map,
  keep, keep_ext, Among, Among-keep, eq_iff, ◌∙◌, sym, ap, Option, none, some, str_eq, arith,
}
use mathlib.Core.Bool.{and-true}
use rain_protocol.Prelude.Int.{ℤ}
use rain_protocol.Prelude.Words.{as_u8}
use rain_protocol.Prelude.Map.{HashMap, get}
use rain_protocol.Prelude.Result.{Result, ok, err}
use rain_protocol.Schema.Row.Api.{Pools}
use rain_protocol.Schema.Row.Trading.{OrderFill, OrderUpdate, status_text}
use rain_protocol.Server.Error.{DeepBookError}
use rain_protocol.Server.Params.{Params, end_time, start_time_or_day, limit}
use rain_protocol.Server.Decimals.{base_factor, pow10_u64_exact}
use rain_protocol.Server.Reader.{
  Filter, equals, meets, meets_all, Table, RpcMetrics, Answer, succeeded,
}
use rain_protocol.Server.Reader.Latest.{IsLatest, in_range, answer-IsLatest, counted-eq-ok}
use rain_protocol.Server.Reader.Trades.{
  Trade, trade_of, if_given, trade_filters, get_orders, selected, update_of, update_filters,
  get_order_updates, get_pool_decimals,
}
use rain_protocol.Server.Trades.{
  Value, ratio, Reply, reply, with_pool, trades, order_updates, trade_value, update_value,
  taker_fee_factor, maker_fee_factor, deep_factor,
}

-- A test that only a given parameter makes.
abbrev pub if_some : (String → Bool) → Option String → Bool
if_some test none = true
if_some test (some value) = test value

-- The trades that a request asks for.
abbrev pub wanted_trade : String → ℤ → Params → OrderFill → Bool
wanted_trade pool_id now params row =
    str_eq row.pool_id pool_id
    && (in_range (λ (r : OrderFill). r.checkpoint_timestamp_ms) now params row
        && (if_some (str_eq row.maker_balance_manager_id) (get "maker_balance_manager_id" params)
            && (if_some (str_eq row.taker_balance_manager_id)
                  (get "taker_balance_manager_id" params)
                && if_some
                    (λ id.
                      str_eq row.maker_balance_manager_id id
                      || str_eq row.taker_balance_manager_id id)
                    (get "balance_manager_id" params))))

-- The changes of orders that a request asks for.
abbrev pub wanted_update : String → ℤ → Params → OrderUpdate → Bool
wanted_update pool_id now params row =
    in_range (λ (r : OrderUpdate). r.checkpoint_timestamp_ms) now params row
    && (str_eq row.pool_id pool_id
        && (if_some (str_eq row.balance_manager_id) (get "balance_manager_id" params)
            && if_some (str_eq (status_text row.status)) (get "status" params)))

module _ {Row : Type 0} (like_op : String → String → Bool) (row : Row) where
  meets_all-append :
      (xs ys : List (Filter Row))
      → meets_all like_op (xs ++ ys) row ≡ (meets_all like_op xs row && meets_all like_op ys row)
  unfolding meets_all
  meets_all-append [] ys = refl
  meets_all-append (x ∷ xs) ys = ground (arith, meets_all-append xs ys)

  meets_all-if_given :
      (filter : String → Filter Row) (o : Option String)
      → meets_all like_op (if_given filter o) row
        ≡ if_some (λ value. meets like_op (filter value) row) o
  unfolding meets_all
  meets_all-if_given filter none = refl
  meets_all-if_given filter (some value) = ground arith

trade_filters-wanted_trade :
    (like_op : String → String → Bool) (pool_id : String) (now : ℤ) (params : Params)
    (row : OrderFill)
    → meets_all like_op
        (trade_filters pool_id
          (start_time_or_day (end_time now params) params)
          (end_time now params)
          (get "maker_balance_manager_id" params)
          (get "taker_balance_manager_id" params)
          (get "balance_manager_id" params))
        row
      ≡ wanted_trade pool_id now params row
unfolding trade_filters meets_all meets
trade_filters-wanted_trade like_op pool_id now params row =
    simp (meets_all-append, meets_all-if_given)

update_filters-wanted_update :
    (like_op : String → String → Bool) (pool_id : String) (now : ℤ) (params : Params)
    (row : OrderUpdate)
    → meets_all like_op
        (update_filters pool_id
          (start_time_or_day (end_time now params) params)
          (end_time now params)
          (get "balance_manager_id" params)
          (get "status" params))
        row
      ≡ wanted_update pool_id now params row
unfolding update_filters meets_all meets
update_filters-wanted_update like_op pool_id now params row =
    simp (meets_all-append, meets_all-if_given)

-- Inversions of an endpoint's steps that succeed.
with_pool-eq-ok :
    (first : Result Pools DeepBookError × RpcMetrics) (next : Pools → RpcMetrics → Reply)
    {values : List (HashMap Value)} {m' : RpcMetrics}
    → with_pool first next ≡ (ok values, m')
    → (pool : Pools) × (m : RpcMetrics) × (first ≡ (ok pool, m)) × (next pool m ≡ (ok values, m'))
with_pool-eq-ok (err e, m) next h = ground arith
with_pool-eq-ok (ok pool, m) next h = (pool, m, refl, h)

reply-eq-ok :
    {A : Type 0} (f : A → HashMap Value) (answer : Answer A) {values : List (HashMap Value)}
    {m' : RpcMetrics}
    → reply f answer ≡ (ok values, m')
    → (rows : List A) × (answer ≡ (ok rows, m')) × (values ≡ map f rows)
reply-eq-ok f (err e, m) h = ground arith
reply-eq-ok f (ok rows, m) h = (rows, cc, cc)

selected-eq-ok :
    {A B : Type 0} (f : A → B) (answer : Answer A) {rows : List B} {m' : RpcMetrics}
    → selected f answer ≡ (ok rows, m')
    → (found : List A) × (answer ≡ (ok found, m')) × (rows ≡ map f found)
selected-eq-ok f (err e, m) h = ground arith
selected-eq-ok f (ok found, m) h = (found, cc, cc)

get_pool_decimals-eq-ok :
    (t : Table Pools) (pool_name : String) (m m' : RpcMetrics) (pool : Pools)
    → get_pool_decimals t pool_name m ≡ (ok pool, m')
    → (t.get_first (equals (λ r. r.pool_name) pool_name ∷ []) ≡ ok pool) × (m' ≡ succeeded m)
unfolding get_pool_decimals
get_pool_decimals-eq-ok t pool_name m m' pool h = ground arith

named_pool :
    (t : Table Pools) (pool_name : String) (pool : Pools)
    → t.get_first (equals (λ r. r.pool_name) pool_name ∷ []) ≡ ok pool
    → Among pool t.rows × (pool.pool_name ≡ pool_name)
unfolding meets_all meets
named_pool t pool_name pool h =
    let (found, same) = Among-keep _ pool t.rows (t.first_answer _ pool h) in
    (found, (eq_iff pool.pool_name pool_name).0 (sym (and-true _) ∙ same))

-- If `trades` answers, then a pool of the table has the name asked for, and the answer is the JSON of
-- the newest of that pool's trades in the time range whose balance managers fit the parameters that
-- are given (`balance_manager_id` as maker or taker), as many as the limit allows, newest first, in
-- the pool's decimals. Two succeeded queries are counted.
pub trades_lem :
    (pools : Table Pools) (fills : Table OrderFill) (now : ℤ) (pool_name : String) (params : Params)
    (m m' : RpcMetrics) (values : List (HashMap Value))
    → trades pools now fills pool_name params m ≡ (ok values, m')
    → (pool : Pools) × (found : List OrderFill) × Among pool pools.rows
      × (pool.pool_name ≡ pool_name)
      × IsLatest
          (keep (wanted_trade pool.pool_id now params) fills.rows)
          (λ row. row.checkpoint_timestamp_ms)
          (limit params)
          found
      × (values
          ≡ map
              (trade_value (as_u8 pool.base_asset_decimals) (as_u8 pool.quote_asset_decimals))
              (map trade_of found))
      × (m' ≡ succeeded (succeeded m))
unfolding trades get_orders
trades_lem pools fills now pool_name params m m' values h =
    let (pool, m1, got, next) = with_pool-eq-ok (get_pool_decimals pools pool_name m) _ h in
    let (first, once) = get_pool_decimals-eq-ok pools pool_name m m1 pool got in
    let (rows, answered, shown) = reply-eq-ok _ _ next in
    let (found, asked, chosen) = selected-eq-ok trade_of _ answered in
    let (queried, twice) = counted-eq-ok _ fills.connect _ m1 m' found asked in
    let (among, named) = named_pool pools pool_name pool first in
    (
      pool,
      found,
      among,
      named,
      rw
          (← keep_ext _ _ fills.rows
            λ row. trade_filters-wanted_trade fills.like_op pool.pool_id now params row)
          (answer-IsLatest fills _ _ (limit params) found queried),
      rw (← chosen) shown,
      twice ∙ ap succeeded once,
    )

-- If `order_updates` answers, then a pool of the table has the name asked for, and the answer is the
-- JSON of the newest changes of that pool's orders in the time range that fit the balance manager and
-- the status that are given, as many as the limit allows, newest first, in the pool's decimals. Two
-- succeeded queries are counted.
pub order_updates_lem :
    (pools : Table Pools) (updates : Table OrderUpdate) (now : ℤ) (pool_name : String)
    (params : Params) (m m' : RpcMetrics) (values : List (HashMap Value))
    → order_updates pools now updates pool_name params m ≡ (ok values, m')
    → (pool : Pools) × (found : List OrderUpdate) × Among pool pools.rows
      × (pool.pool_name ≡ pool_name)
      × IsLatest
          (keep (wanted_update pool.pool_id now params) updates.rows)
          (λ row. row.checkpoint_timestamp_ms)
          (limit params)
          found
      × (values
          ≡ map
              (update_value (as_u8 pool.base_asset_decimals) (as_u8 pool.quote_asset_decimals))
              (map update_of found))
      × (m' ≡ succeeded (succeeded m))
unfolding order_updates get_order_updates
order_updates_lem pools updates now pool_name params m m' values h =
    let (pool, m1, got, next) = with_pool-eq-ok (get_pool_decimals pools pool_name m) _ h in
    let (first, once) = get_pool_decimals-eq-ok pools pool_name m m1 pool got in
    let (rows, answered, shown) = reply-eq-ok _ _ next in
    let (found, asked, chosen) = selected-eq-ok update_of _ answered in
    let (queried, twice) = counted-eq-ok _ updates.connect _ m1 m' found asked in
    let (among, named) = named_pool pools pool_name pool first in
    (
      pool,
      found,
      among,
      named,
      rw
          (← keep_ext _ _ updates.rows
            λ row. update_filters-wanted_update updates.like_op pool.pool_id now params row)
          (answer-IsLatest updates _ _ (limit params) found queried),
      rw (← chosen) shown,
      twice ∙ ap succeeded once,
    )

-- What a fee is paid in: DEEP, or what the party that pays it gives.
pub data Coin : Type 0 where
  deep base quote : Coin

abbrev pub fee_coin : Bool → Bool → Coin
fee_coin true is_bid = deep
fee_coin false true = quote
fee_coin false false = base

abbrev pub coin_decimals : ℕ → ℕ → Coin → ℕ
coin_decimals base_decimals quote_decimals deep = 6
coin_decimals base_decimals quote_decimals base = base_decimals
coin_decimals base_decimals quote_decimals quote = quote_decimals

fee_factors :
    (b q : ℕ) (t : Trade)
    → b ≤ 19
    → q ≤ 19
    → (taker_fee_factor b q t
        ≡ 10 ^ coin_decimals b q (fee_coin t.taker_fee_is_deep t.taker_is_bid))
      × (maker_fee_factor b q t
          ≡ 10 ^ coin_decimals b q (fee_coin t.maker_fee_is_deep (not t.taker_is_bid)))
unfolding taker_fee_factor maker_fee_factor deep_factor base_factor
fee_factors b q t hb hq = ground (arith, pow10_u64_exact b hb, pow10_u64_exact q hq)

-- The fees of a trade in the answer are in the coin that they were paid in, for decimals up to 19:
-- each is divided by ten to the decimals of DEEP, or else of the quote coin if its payer bought and
-- of the base coin if its payer sold. The maker is on the other side of the taker.
pub trade_value-fees :
    (base_decimals quote_decimals : ℕ) (t : Trade)
    → base_decimals ≤ 19
    → quote_decimals ≤ 19
    → (get "taker_fee" (trade_value base_decimals quote_decimals t)
        ≡ some (
            ratio t.taker_fee (
              10
              ^ coin_decimals base_decimals quote_decimals
                  (fee_coin t.taker_fee_is_deep t.taker_is_bid))))
      × (get "maker_fee" (trade_value base_decimals quote_decimals t)
          ≡ some (
              ratio t.maker_fee (
                10
                ^ coin_decimals base_decimals quote_decimals
                    (fee_coin t.maker_fee_is_deep (not t.taker_is_bid)))))
unfolding trade_value get
trade_value-fees b q t hb hq =
    let (taker, maker) = fee_factors b q t hb hq in (rw taker refl, rw maker refl)
