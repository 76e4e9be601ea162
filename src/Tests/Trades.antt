-- ===== src/Tests/Trades.antt =====
-- Instances of the properties of a pool's trades and order changes at small tables.
use rain_protocol.Prelude.{
  ℕ, ◌^◌, ◌≡◌, refl, String, true, false, List, [], ◌∷◌, keep, map, Among, some, arith,
}
use rain_protocol.Prelude.Int.{pos}
use rain_protocol.Prelude.Map.{HashMap, get}
use rain_protocol.Prelude.Result.{ok}
use rain_protocol.Prelude.Parse.{parse_i64}
use rain_protocol.Prelude.Words.{as_u8, mul_i64}
use rain_protocol.Schema.Row.Api.{Pools}
use rain_protocol.Schema.Row.Trading.{OrderFill, OrderUpdate, canceled}
use rain_protocol.Server.Params.{Params, limit, get_i64, start_time, start_time_or_day, end_time}
use rain_protocol.Server.Reader.{Table, meets_all, succeeded}
use rain_protocol.Server.Reader.Latest.{IsLatest}
use rain_protocol.Server.Reader.Trades.{Trade, trade_of, update_of}
use rain_protocol.Server.Trades.{Value, ratio, trades, order_updates, trade_value, update_value}
use rain_protocol.Server.Trades.Laws.{
  wanted_trade, wanted_update, trades_lem, order_updates_lem, trade_value-fees,
}
use rain_protocol.Tests.Data.{pool_row}
use rain_protocol.Tests.Tables.{table_of}
use rain_protocol.Tests.Reader.{none_yet}

abbrev pools : Table Pools
pools = table_of (pool_row "0x1" ∷ [])

abbrev filled : ℕ → String → OrderFill
filled time maker = record {
  event_digest = "d";
  digest = "d";
  sender = "s";
  checkpoint = pos 1;
  checkpoint_timestamp_ms = pos time;
  package_id = "p";
  pool_id = "0x1";
  maker_order_id = "5";
  taker_order_id = "7";
  maker_client_order_id = pos 1;
  taker_client_order_id = pos 2;
  price = pos 3;
  taker_fee = pos 4;
  taker_fee_is_deep = false;
  maker_fee = pos 6;
  maker_fee_is_deep = true;
  taker_is_bid = true;
  base_quantity = pos 8;
  quote_quantity = pos 9;
  maker_balance_manager_id = maker;
  taker_balance_manager_id = "0xt";
  onchain_timestamp = pos time;
}

abbrev fills : Table OrderFill
fills = table_of (filled 2000 "0xa" ∷ filled 3000 "0xb" ∷ filled 4000 "0xa" ∷ [])

abbrev updated : ℕ → String → OrderUpdate
updated time id = record {
  event_digest = "d";
  digest = "d";
  sender = "s";
  checkpoint = pos 1;
  checkpoint_timestamp_ms = pos time;
  package_id = "p";
  status = canceled;
  pool_id = "0x1";
  order_id = id;
  client_order_id = pos 1;
  price = pos 3;
  is_bid = true;
  original_quantity = pos 10;
  quantity = pos 4;
  filled_quantity = pos 6;
  onchain_timestamp = pos time;
  trader = "t";
  balance_manager_id = "0xa";
}

abbrev updates : Table OrderUpdate
updates = table_of (updated 2000 "1" ∷ updated 3000 "2" ∷ [])

abbrev request : Params
request =
    ("limit", "5")
    ∷ ("start_time", "1")
    ∷ ("end_time", "9")
    ∷ ("maker_balance_manager_id", "0xa")
    ∷ ("status", "Canceled")
    ∷ []

abbrev traded : List (HashMap Value)
traded = map (trade_value 9 6) (map trade_of (filled 4000 "0xa" ∷ filled 2000 "0xa" ∷ []))

abbrev changed : List (HashMap Value)
changed = map (update_value 9 6) (map update_of (updated 3000 "2" ∷ updated 2000 "1" ∷ []))

trades_run :
    trades pools (pos 0) fills "SUI_USDC" request none_yet
    ≡ (ok traded, succeeded (succeeded none_yet))
unfolding trades meets_all limit get_i64 get parse_i64 start_time_or_day start_time mul_i64 end_time
    as_u8
trades_run = refl

updates_run :
    order_updates pools (pos 0) updates "SUI_USDC" request none_yet
    ≡ (ok changed, succeeded (succeeded none_yet))
unfolding order_updates meets_all limit get_i64 get parse_i64 start_time_or_day start_time mul_i64
    end_time as_u8
updates_run = refl

trades_lem_example :
    (pool : Pools) × (found : List OrderFill) × Among pool pools.rows
    × (pool.pool_name ≡ "SUI_USDC")
    × IsLatest
        (keep (wanted_trade pool.pool_id (pos 0) request) fills.rows)
        (λ row. row.checkpoint_timestamp_ms)
        (limit request)
        found
    × (traded
        ≡ map
            (trade_value (as_u8 pool.base_asset_decimals) (as_u8 pool.quote_asset_decimals))
            (map trade_of found))
    × (succeeded (succeeded none_yet) ≡ succeeded (succeeded none_yet))
trades_lem_example =
    trades_lem pools fills (pos 0) "SUI_USDC" request none_yet (succeeded (succeeded none_yet))
      traded trades_run

order_updates_lem_example :
    (pool : Pools) × (found : List OrderUpdate) × Among pool pools.rows
    × (pool.pool_name ≡ "SUI_USDC")
    × IsLatest
        (keep (wanted_update pool.pool_id (pos 0) request) updates.rows)
        (λ row. row.checkpoint_timestamp_ms)
        (limit request)
        found
    × (changed
        ≡ map
            (update_value (as_u8 pool.base_asset_decimals) (as_u8 pool.quote_asset_decimals))
            (map update_of found))
    × (succeeded (succeeded none_yet) ≡ succeeded (succeeded none_yet))
order_updates_lem_example =
    order_updates_lem pools updates (pos 0) "SUI_USDC" request none_yet
      (succeeded (succeeded none_yet)) changed updates_run

abbrev one : Trade
one = trade_of (filled 2000 "0xa")

trade_value-fees_example :
    (get "taker_fee" (trade_value 9 8 one) ≡ some (ratio (pos 4) (10 ^ 8)))
    × (get "maker_fee" (trade_value 9 8 one) ≡ some (ratio (pos 6) (10 ^ 6)))
unfolding trade_of
trade_value-fees_example = trade_value-fees 9 8 one (omega arith) (omega arith)
