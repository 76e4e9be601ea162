-- ===== src/Server/Reader/Orders.antt =====
-- deepbookv3/crates/server/src/reader.rs, `get_orders_status`: the SQL query for the current status of
-- orders. Which of several rows with one time `DISTINCT ON` keeps is not determined.
use mathlib.Core.List.{Permᴰ}
use rain_protocol.Prelude.{
  ◌≡◌, ◌⊎◌, String, Bool, true, false, ◌&&◌, List, map, keep, find, any, All, Among, Option, none,
  some, str_eq, if◌then◌else◌, ◌<>◌,
}
use rain_protocol.Prelude.Int.{ℤ, pos, ◌≤ℤ◌, leb_ℤ, ltb_ℤ}
use rain_protocol.Prelude.Transfer.{DistinctBy}
use rain_protocol.Prelude.Result.{Result}
use rain_protocol.Schema.Row.Trading.{OrderUpdate, OrderStatus, status_text}
use rain_protocol.Server.Error.{database}
use rain_protocol.Server.Reader.{RpcMetrics, Answer, counted, IsNewestFirst, IsLimit, limited}

-- `WHERE pool_id = $1 AND ($2 IS NULL OR balance_manager_id = $2)`.
unfoldable pub in_pool : String → Option String → OrderUpdate → Bool
in_pool pool_id none row = str_eq row.pool_id pool_id
in_pool pool_id (some id) row = str_eq row.pool_id pool_id && str_eq row.balance_manager_id id

-- `WHERE pool_id = $1 AND status = 'Placed'`.
unfoldable pub placed_in_pool : String → OrderUpdate → Bool
unfolding status_text
placed_in_pool pool_id row = str_eq row.pool_id pool_id && str_eq (status_text row.status) "Placed"

-- The `CASE` of `order_status`.
unfoldable pub current_status : OrderUpdate → String
unfolding status_text
current_status le =
    if str_eq (status_text le.status) "Canceled"
    then "canceled"
    else if str_eq (status_text le.status) "Expired"
    then "expired"
    else if leb_ℤ le.original_quantity le.filled_quantity
    then "filled"
    else if ltb_ℤ (pos 0) le.filled_quantity
    then "partially_filled"
    else "placed"

abbrev pub time_or : ℤ → Option OrderUpdate → ℤ
time_or default none = default
time_or default (some pe) = pe.checkpoint_timestamp_ms

-- `COALESCE(pe.placed_at, le.last_updated_at)` behind the `LEFT JOIN` with the placed events.
unfoldable pub placed_at : List OrderUpdate → OrderUpdate → ℤ
placed_at placed_events le =
    time_or le.checkpoint_timestamp_ms
      (find (λ (pe : OrderUpdate). str_eq le.order_id pe.order_id) placed_events)

unfoldable pub order_status : List OrderUpdate → OrderUpdate → OrderStatus
unfolding current_status placed_at
order_status placed_events le = record {
  order_id = le.order_id;
  balance_manager_id = le.balance_manager_id;
  is_bid = le.is_bid;
  current_status = current_status le;
  price = le.price;
  placed_at = placed_at placed_events le;
  last_updated_at = le.checkpoint_timestamp_ms;
  original_quantity = le.original_quantity;
  filled_quantity = le.filled_quantity;
  remaining_quantity = le.quantity;
}

-- `WHERE ($3 IS NULL OR current_status = ANY($3))`.
unfoldable pub status_fits : Option (List String) → OrderStatus → Bool
status_fits none o = true
status_fits (some statuses) o = any (str_eq o.current_status) statuses

-- No row in question of the same order comes before a pick in the order `le`.
abbrev pub IsFirst : (OrderUpdate → Bool) → (ℤ → ℤ → Type 0) → OrderUpdate → OrderUpdate → Type 0
IsFirst wanted le pick row =
    ((wanted row && str_eq row.order_id pick.order_id) ≡ false)
    ⊎ le row.checkpoint_timestamp_ms pick.checkpoint_timestamp_ms

-- What `SELECT DISTINCT ON (order_id) ... ORDER BY order_id, checkpoint_timestamp_ms` keeps of the rows
-- that its `WHERE` wants: for each order one row, none of which another one of the order comes before.
pub record IsDistinctOn (wanted : OrderUpdate → Bool) (le : ℤ → ℤ → Type 0)
    (rows picks : List OrderUpdate) : Type 0 where
  pub picked :
      All (λ pick. Among pick rows × (wanted pick ≡ true) × All (IsFirst wanted le pick) rows) picks
  pub covered :
      All
        (λ (row : OrderUpdate).
          (wanted row ≡ false)
          ⊎ ((pick : OrderUpdate) × Among pick picks × (pick.order_id ≡ row.order_id)))
        rows
  pub once : DistinctBy (λ (pick : OrderUpdate). pick.order_id) picks

-- What the query returns for its parameters.
pub record IsStatusAnswer (rows : List OrderUpdate) (pool_id : String) (manager : Option String)
    (statuses : Option (List String)) (limit : ℤ) (found : List OrderStatus) : Type 0 where
  pub latest : List OrderUpdate
  pub placed_events : List OrderUpdate
  pub ordered : List OrderStatus
  pub latest_picks : IsDistinctOn (in_pool pool_id manager) (λ a b. a ≤ℤ b) rows latest
  pub placed_picks : IsDistinctOn (placed_in_pool pool_id) (λ a b. b ≤ℤ a) rows placed_events
  pub same : Permᴰ ordered (keep (status_fits statuses) (map (order_status placed_events) latest))
  pub newest_first : IsNewestFirst (λ (o : OrderStatus). o.last_updated_at) ordered
  pub not_negative : IsLimit (some limit)
  pub cut : found ≡ limited (some limit) ordered

-- The table, its connection, and the query with its parameters.
pub record Statuses : Type 0 where
  pub rows : List OrderUpdate
  pub connect : Result Unit String
  pub load : String → Option String → Option (List String) → ℤ → Result (List OrderStatus) String

unfoldable pub get_orders_status :
    Statuses → String → ℤ → Option String → Option (List String) → RpcMetrics → Answer OrderStatus
unfolding counted
get_orders_status t pool_id limit balance_manager_filter status_filter m =
    counted (λ e. database ("Error fetching order status: " <> e)) t.connect
      (t.load pool_id balance_manager_filter status_filter limit) m
