-- ===== src/Server/Orders/Laws.antt =====
-- What the statuses of orders say.
use rain_protocol.Prelude.{
  ℕ, ◌≡◌, refl, ◌⊎◌, inl, inr, String, true, false, List, [], ◌∷◌, map, take, drop, length,
  take-append-drop, All, All-weaken, Among, Option, some, str_eq, zero, suc, if◌then◌else◌, arith,
}
use rain_protocol.Prelude.Int.{ℤ, pos, ◌≤ℤ◌, leb_ℤ, ltb_ℤ, pos_part}
use rain_protocol.Prelude.Result.{ok}
use rain_protocol.Prelude.Transfer.{
  DistinctBy, All-keep, All-take, All-Permᴰ, All-map, DistinctBy-keep, DistinctBy-take,
  DistinctBy-Permᴰ, DistinctBy-map, Among-map, keep-Among, Among-Permᴰ, All-Among,
}
use rain_protocol.Prelude.Words.{as_u8}
use rain_protocol.Schema.Row.Api.{Pools}
use rain_protocol.Schema.Row.Trading.{
  OrderUpdate, OrderStatus, OrderUpdateStatus, placed, modified, canceled, expired, status_text,
}
use rain_protocol.Server.Params.{Params}
use rain_protocol.Server.Reader.{Table, RpcMetrics, equals, counted, succeeded, IsNewestFirst}
use rain_protocol.Server.Reader.Latest.{taken_limit, IsNewestFirst-append}
use rain_protocol.Server.Reader.Trades.{get_pool_decimals}
use rain_protocol.Server.Reader.Orders.{
  Statuses, IsStatusAnswer, IsFirst, in_pool, current_status, order_status, status_fits,
  get_orders_status,
}
use rain_protocol.Server.Orders.{orders, order_value, status_filter, orders_limit}

-- The status of an order by its last update: how it ended, or else how much of it is filled.
abbrev pub expected_status : OrderUpdateStatus → ℤ → ℤ → String
expected_status canceled original filled = "canceled"
expected_status expired original filled = "expired"
expected_status _ original filled =
    if leb_ℤ original filled
    then "filled"
    else if ltb_ℤ (pos 0) filled
    then "partially_filled"
    else "placed"

-- An order of the answer is that of its newest update in the pool by the manager.
pub record IsStatusOf (rows : List OrderUpdate) (pool_id : String) (manager : Option String)
    (o : OrderStatus) : Type 0 where
  pub update : OrderUpdate
  pub among : Among update rows
  pub in_question : in_pool pool_id manager update ≡ true
  pub newest : All (IsFirst (in_pool pool_id manager) (λ a b. a ≤ℤ b) update) rows
  pub same_order : o.order_id ≡ update.order_id
  pub status :
      o.current_status
      ≡ expected_status update.status update.original_quantity update.filled_quantity
  pub filled : o.filled_quantity ≡ update.filled_quantity
  pub remaining : o.remaining_quantity ≡ update.quantity
  pub updated : o.last_updated_at ≡ update.checkpoint_timestamp_ms

status_text-expected :
    (s : OrderUpdateStatus) (original filled : ℤ)
    → (if str_eq (status_text s) "Canceled"
        then "canceled"
        else if str_eq (status_text s) "Expired"
        then "expired"
        else if leb_ℤ original filled
        then "filled"
        else if ltb_ℤ (pos 0) filled
        then "partially_filled"
        else "placed")
      ≡ expected_status s original filled
unfolding status_text
status_text-expected placed original filled = refl
status_text-expected modified original filled = refl
status_text-expected canceled original filled = refl
status_text-expected expired original filled = refl

order_status-IsStatusOf :
    (rows : List OrderUpdate) (pool_id : String) (manager : Option String)
    (placed_events : List OrderUpdate) (u : OrderUpdate)
    → Among u rows
      × (in_pool pool_id manager u ≡ true)
      × All (IsFirst (in_pool pool_id manager) (λ a b. a ≤ℤ b) u) rows
    → IsStatusOf rows pool_id manager (order_status placed_events u)
unfolding order_status current_status
order_status-IsStatusOf rows pool_id manager placed_events u (among, wanted, newest) = record {
  update = u;
  among = among;
  in_question = wanted;
  newest = newest;
  same_order = refl;
  status = status_text-expected u.status u.original_quantity u.filled_quantity;
  filled = refl;
  remaining = refl;
  updated = refl;
}

DistinctBy-order_status :
    (placed_events latest : List OrderUpdate)
    → DistinctBy (λ (u : OrderUpdate). u.order_id) latest
    → DistinctBy (λ (o : OrderStatus). o.order_id) (map (order_status placed_events) latest)
unfolding order_status
DistinctBy-order_status placed_events latest d =
    DistinctBy-map (λ (o : OrderStatus). o.order_id) (order_status placed_events) latest d

take-Among :
    {A : Type 0} (x : A) (n : ℕ) (xs : List A) → drop n xs ≡ [] → Among x xs → Among x (take n xs)
take-Among x zero [] e h = h
take-Among x zero (y ∷ ys) e h = ground arith
take-Among x (suc n) [] e h = h
take-Among x (suc n) (y ∷ ys) e (inl same) = inl same
take-Among x (suc n) (y ∷ ys) e (inr later) = inr (take-Among x n ys e later)

module _ (rows : List OrderUpdate) (pool_id : String) (manager : Option String)
    (statuses : Option (List String)) (limit : ℤ) (found : List OrderStatus) where
  -- An order of the answer, with one of the statuses asked for.
  abbrev pub Fits : OrderStatus → Type 0
  Fits o = IsStatusOf rows pool_id manager o × (status_fits statuses o ≡ true)

  -- A row that is not in question, or whose order has another status or is in the answer.
  abbrev pub IsShown : OrderUpdate → Type 0
  IsShown row =
      (in_pool pool_id manager row ≡ false)
      ⊎ ((o : OrderStatus) × IsStatusOf rows pool_id manager o
          × (o.order_id ≡ row.order_id)
          × ((status_fits statuses o ≡ false) ⊎ Among o found))

  -- What the answer is to be: right, one entry for each order, newest first, and complete unless the
  -- limit is reached.
  pub record IsRight : Type 0 where
    pub right : All Fits found
    pub once : DistinctBy (λ (o : OrderStatus). o.order_id) found
    pub newest_first : IsNewestFirst (λ (o : OrderStatus). o.last_updated_at) found
    pub at_most : pos (length found) ≤ℤ limit
    pub complete : All IsShown rows ⊎ (pos (length found) ≡ limit)

  module _ (answer : IsStatusAnswer rows pool_id manager statuses limit found) where
    open answer use {latest, placed_events, ordered, latest_picks, same, not_negative, cut}

    ordered-All : All Fits ordered
    ordered-All = All-Permᴰ Fits same (
        All-keep (IsStatusOf rows pool_id manager) (status_fits statuses)
          (map (order_status placed_events) latest)
          (All-map (IsStatusOf rows pool_id manager) (order_status placed_events) latest (
            All-weaken _ latest (order_status-IsStatusOf rows pool_id manager placed_events)
              latest_picks.picked)))

    ordered-DistinctBy : DistinctBy (λ (o : OrderStatus). o.order_id) ordered
    ordered-DistinctBy = DistinctBy-Permᴰ _ same (
        DistinctBy-keep _ (status_fits statuses) (map (order_status placed_events) latest)
          (DistinctBy-order_status placed_events latest latest_picks.once))

    covered-IsShown :
        (u : OrderUpdate)
        → drop (pos_part limit) ordered ≡ []
        → (in_pool pool_id manager u ≡ false)
          ⊎ ((pick : OrderUpdate) × Among pick latest × (pick.order_id ≡ u.order_id))
        → IsShown u
    unfolding order_status
    covered-IsShown u all (inl elsewhere) = inl elsewhere
    covered-IsShown u all (inr (pick, among, same_id)) =
        let o = order_status placed_events pick in
        let facts =
          All-Among
            (λ (x : OrderUpdate). IsStatusOf rows pool_id manager (order_status placed_events x))
            pick latest
            (All-weaken _ latest (order_status-IsStatusOf rows pool_id manager placed_events)
              latest_picks.picked)
            among in
        let mapped = Among-map (order_status placed_events) pick latest among in
        inr (
          o,
          facts,
          same_id,
          elim (keep-Among (status_fits statuses) o (map (order_status placed_events) latest)
              mapped) [
                | inl other ↦ inl other
                | inr kept ↦
                    inr
                      (rw cut (take-Among o (pos_part limit) ordered all (Among-Permᴰ o same kept)))
              ],
        )

    -- A documented answer of the query is right.
    pub IsStatusAnswer-IsRight : IsRight
    IsStatusAnswer-IsRight =
        let n = pos_part limit in
        let (at_most, full) = taken_limit limit ordered not_negative in
        record {
          right = rw cut (All-take Fits n ordered ordered-All);
          once = rw cut (DistinctBy-take _ n ordered ordered-DistinctBy);
          newest_first =
              rw cut
                (IsNewestFirst-append (λ (o : OrderStatus). o.last_updated_at) (take n ordered)
                  (drop n ordered) (rw (take-append-drop n ordered) answer.newest_first)).0;
          at_most = rw cut at_most;
          complete = elim full [
            | inl all ↦
                inl (All-weaken IsShown rows (λ u c. covered-IsShown u all c) latest_picks.covered)
            | inr reached ↦ inr (rw cut reached)
          ];
        }

-- If the pool is found by its name, the query for its orders of this balance manager is answered, with
-- the statuses and the limit of the request, and the answer is what PostgreSQL documents, then `orders`
-- answers with the JSON of these orders in the pool's decimals and counts two succeeded queries. Each
-- order is that of the newest of its updates by the manager in the pool: canceled or expired if that
-- update says so, and otherwise filled, partially filled or placed by its filled and its original
-- quantity. Each has a status asked for, none stands there twice, they come newest first, at most as
-- many as the limit; and unless the limit is reached, every update by the manager in the pool has its
-- order in the answer, or its order has a status that is not asked for.
pub orders_lem :
    (pools : Table Pools) (statuses : Statuses) (pool_name balance_manager_id : String)
    (params : Params) (m : RpcMetrics) (pool : Pools) (found : List OrderStatus)
    → pools.connect ≡ ok tt
    → pools.get_first (equals (λ r. r.pool_name) pool_name ∷ []) ≡ ok pool
    → statuses.connect ≡ ok tt
    → statuses.load pool.pool_id
        (some balance_manager_id)
        (status_filter params)
        (orders_limit params)
      ≡ ok found
    → IsStatusAnswer statuses.rows pool.pool_id
        (some balance_manager_id)
        (status_filter params)
        (orders_limit params)
        found
    → (orders pools statuses pool_name balance_manager_id params m ≡ (
      ok (
          map
            (order_value (as_u8 pool.base_asset_decimals) (as_u8 pool.quote_asset_decimals))
            found),
      succeeded (succeeded m),
    ))
      × IsRight statuses.rows pool.pool_id
          (some balance_manager_id)
          (status_filter params)
          (orders_limit params)
          found
unfolding orders get_pool_decimals get_orders_status counted
orders_lem pools statuses pool_name balance_manager_id params m pool found open_ named open_too
      loaded answer =
    (
      rw (open_, named, open_too, loaded) refl,
      IsStatusAnswer-IsRight statuses.rows pool.pool_id (some balance_manager_id)
          (status_filter params) (orders_limit params) found answer,
    )
