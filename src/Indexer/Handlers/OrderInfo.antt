-- ===== src/Indexer/Handlers/OrderInfo.antt =====
-- deepbookv3/crates/indexer/src/handlers: order_fill_handler.rs.
use rain_protocol.Prelude.Words.{as_i64}
use rain_protocol.Prelude.Decimal.{show_ℕ}
use rain_protocol.Indexer.Sdk.{Sdk}
use rain_protocol.Indexer.Chain.{event_digest}
use rain_protocol.Indexer.Handler.{Handler}
use rain_protocol.Indexer.Event
use rain_protocol.Schema.Row

module _ (sdk : Sdk) where
  unfoldable pub order_fill_handler : Handler Event.OrderInfo.OrderFilled Row.Trading.OrderFill
  unfolding event_digest
  order_fill_handler = record {
    processor_name = "order_fill";
    module_name = "order_info";
    event_name = "OrderFilled";
    table = "order_fills";
    key = λ row. row.event_digest;
    map_event = λ event meta. record {
      event_digest = event_digest meta;
      digest = meta.digest;
      sender = meta.sender;
      checkpoint = meta.checkpoint;
      checkpoint_timestamp_ms = meta.checkpoint_timestamp_ms;
      package_id = meta.package_id;
      pool_id = sdk.object_id_to_string event.pool_id;
      maker_order_id = show_ℕ event.maker_order_id;
      taker_order_id = show_ℕ event.taker_order_id;
      maker_client_order_id = as_i64 event.maker_client_order_id;
      taker_client_order_id = as_i64 event.taker_client_order_id;
      price = as_i64 event.price;
      taker_fee = as_i64 event.taker_fee;
      taker_fee_is_deep = event.taker_fee_is_deep;
      maker_fee = as_i64 event.maker_fee;
      maker_fee_is_deep = event.maker_fee_is_deep;
      taker_is_bid = event.taker_is_bid;
      base_quantity = as_i64 event.base_quantity;
      quote_quantity = as_i64 event.quote_quantity;
      maker_balance_manager_id = sdk.object_id_to_string event.maker_balance_manager_id;
      taker_balance_manager_id = sdk.object_id_to_string event.taker_balance_manager_id;
      onchain_timestamp = as_i64 event.timestamp;
    };
  }
