-- ===== src/Server/Reader/Trades.antt =====
-- deepbookv3/crates/server/src/reader.rs: queries of the tables `order_fills`, `order_updates` and
-- `pools`.
use rain_protocol.Prelude.{◌<>◌, String, Bool, List, [], ◌∷◌, ◌++◌, map, Option, none, some}
use rain_protocol.Prelude.Int.{ℤ}
use rain_protocol.Prelude.Result.{Result, ok, err}
use rain_protocol.Schema.Row.Api.{Pools}
use rain_protocol.Schema.Row.Trading.{OrderFill, OrderUpdate, status_text}
use rain_protocol.Server.Error.{DeepBookError, not_found, database}
use rain_protocol.Server.Reader.{
  Filter, between, equals, either, Table, RpcMetrics, Answer, counted, succeeded, failed,
}

-- The columns that `get_orders` selects.
pub record Trade : Type 0 where
  pub event_digest : String
  pub digest : String
  pub maker_order_id : String
  pub taker_order_id : String
  pub maker_client_order_id : ℤ
  pub taker_client_order_id : ℤ
  pub price : ℤ
  pub base_quantity : ℤ
  pub quote_quantity : ℤ
  pub timestamp : ℤ
  pub taker_is_bid : Bool
  pub maker_balance_manager_id : String
  pub taker_balance_manager_id : String
  pub taker_fee_is_deep : Bool
  pub maker_fee_is_deep : Bool
  pub taker_fee : ℤ
  pub maker_fee : ℤ

unfoldable pub trade_of : OrderFill → Trade
trade_of row = record {
  event_digest = row.event_digest;
  digest = row.digest;
  maker_order_id = row.maker_order_id;
  taker_order_id = row.taker_order_id;
  maker_client_order_id = row.maker_client_order_id;
  taker_client_order_id = row.taker_client_order_id;
  price = row.price;
  base_quantity = row.base_quantity;
  quote_quantity = row.quote_quantity;
  timestamp = row.checkpoint_timestamp_ms;
  taker_is_bid = row.taker_is_bid;
  maker_balance_manager_id = row.maker_balance_manager_id;
  taker_balance_manager_id = row.taker_balance_manager_id;
  taker_fee_is_deep = row.taker_fee_is_deep;
  maker_fee_is_deep = row.maker_fee_is_deep;
  taker_fee = row.taker_fee;
  maker_fee = row.maker_fee;
}

-- The columns that `get_order_updates` selects.
pub record Update : Type 0 where
  pub order_id : String
  pub price : ℤ
  pub original_quantity : ℤ
  pub quantity : ℤ
  pub filled_quantity : ℤ
  pub timestamp : ℤ
  pub is_bid : Bool
  pub balance_manager_id : String
  pub status : String

unfoldable pub update_of : OrderUpdate → Update
unfolding status_text
update_of row = record {
  order_id = row.order_id;
  price = row.price;
  original_quantity = row.original_quantity;
  quantity = row.quantity;
  filled_quantity = row.filled_quantity;
  timestamp = row.checkpoint_timestamp_ms;
  is_bid = row.is_bid;
  balance_manager_id = row.balance_manager_id;
  status = status_text row.status;
}

-- `select`: columns of the rows found.
abbrev pub selected : {A B : Type 0} → (A → B) → Answer A → Answer B
selected f (err e, m) = (err e, m)
selected f (ok rows, m) = (ok (map f rows), m)

-- `if let Some(value) = filter { query = query.filter(...) }`.
abbrev pub if_given : {Row : Type 0} → (String → Filter Row) → Option String → List (Filter Row)
if_given filter none = []
if_given filter (some value) = filter value ∷ []

unfoldable pub trade_filters :
    String → ℤ → ℤ → Option String → Option String → Option String → List (Filter OrderFill)
trade_filters pool_id start_time end_time maker_balance_manager taker_balance_manager
      balance_manager =
    equals (λ r. r.pool_id) pool_id
    ∷ between (λ r. r.checkpoint_timestamp_ms) start_time end_time
    ∷ (if_given (equals (λ r. r.maker_balance_manager_id)) maker_balance_manager
        ++ (if_given (equals (λ r. r.taker_balance_manager_id)) taker_balance_manager
            ++ if_given (either (λ r. r.maker_balance_manager_id) (λ r. r.taker_balance_manager_id))
                balance_manager))

unfoldable pub get_orders :
    Table OrderFill
    → String
    → String
    → ℤ
    → ℤ
    → ℤ
    → Option String
    → Option String
    → Option String
    → RpcMetrics
    → Answer Trade
unfolding counted trade_of trade_filters
get_orders t pool_name pool_id start_time end_time limit maker_balance_manager taker_balance_manager
      balance_manager m =
    selected trade_of (
      counted (λ _. not_found ("Trades for pool '" <> pool_name <> "' in the specified time range"))
        t.connect
        (t.get_results (record {
          filters =
              trade_filters pool_id start_time end_time maker_balance_manager taker_balance_manager
                balance_manager;
          order_by_desc = λ r. r.checkpoint_timestamp_ms;
          limit = some limit;
        }))
        m)

unfoldable pub update_filters :
    String → ℤ → ℤ → Option String → Option String → List (Filter OrderUpdate)
unfolding status_text
update_filters pool_id start_time end_time balance_manager_filter status_filter =
    between (λ r. r.checkpoint_timestamp_ms) start_time end_time
    ∷ equals (λ r. r.pool_id) pool_id
    ∷ (if_given (equals (λ r. r.balance_manager_id)) balance_manager_filter
        ++ if_given (equals (λ r. status_text r.status)) status_filter)

unfoldable pub get_order_updates :
    Table OrderUpdate
    → String
    → ℤ
    → ℤ
    → ℤ
    → Option String
    → Option String
    → RpcMetrics
    → Answer Update
unfolding counted update_of update_filters
get_order_updates t pool_id start_time end_time limit balance_manager_filter status_filter m =
    selected update_of (
      counted (λ _. database "Error fetching trade details") t.connect
        (t.get_results (record {
          filters = update_filters pool_id start_time end_time balance_manager_filter status_filter;
          order_by_desc = λ r. r.checkpoint_timestamp_ms;
          limit = some limit;
        }))
        m)

-- `Reader::first`: the counters, and one row.
abbrev pub counted_first :
    {Row : Type 0}
    → DeepBookError
    → Result Unit String
    → Result Row String
    → RpcMetrics
    → Result Row DeepBookError × RpcMetrics
counted_first e (err _) res m = (err e, m)
counted_first e (ok _) (ok row) m = (ok row, succeeded m)
counted_first e (ok _) (err _) m = (err e, failed m)

-- Any error becomes that the pool is not found.
unfoldable pub get_pool_decimals :
    Table Pools → String → RpcMetrics → Result Pools DeepBookError × RpcMetrics
get_pool_decimals t pool_name m =
    counted_first (not_found ("Pool '" <> pool_name <> "'")) t.connect
      (t.get_first (equals (λ r. r.pool_name) pool_name ∷ [])) m
