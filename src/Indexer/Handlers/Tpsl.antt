-- ===== src/Indexer/Handlers/Tpsl.antt =====
-- deepbookv3/crates/indexer/src/handlers: conditional_order_added_handler.rs,
--   conditional_order_cancelled_handler.rs, conditional_order_executed_handler.rs,
--   conditional_order_insufficient_funds_handler.rs.
use rain_protocol.Prelude.{unwrap_or, some, none}
use rain_protocol.Prelude.Words.{as_i64, u8_as_i16}
use rain_protocol.Indexer.Sdk.{Sdk}
use rain_protocol.Indexer.Chain.{event_digest}
use rain_protocol.Indexer.Handler.{Handler}
use rain_protocol.Indexer.Event
use rain_protocol.Schema.Row

module _ (sdk : Sdk) where
  unfoldable pub conditional_order_added_handler :
      Handler Event.Tpsl.ConditionalOrderAdded Row.Tpsl.ConditionalOrderEvent
  unfolding event_digest
  conditional_order_added_handler = record {
    processor_name = "conditional_order_added";
    module_name = "tpsl";
    event_name = "ConditionalOrderAdded";
    table = "conditional_order_events";
    key = λ row. row.event_digest;
    map_event = λ event meta. record {
      event_digest = event_digest meta;
      digest = meta.digest;
      sender = meta.sender;
      checkpoint = meta.checkpoint;
      checkpoint_timestamp_ms = meta.checkpoint_timestamp_ms;
      package_id = meta.package_id;
      event_type = "added";
      manager_id = sdk.object_id_to_string event.manager_id;
      pool_id = none;
      conditional_order_id = as_i64 event.conditional_order_id;
      trigger_below_price = event.conditional_order.condition.trigger_below_price;
      trigger_price = event.conditional_order.condition.trigger_price;
      is_limit_order = event.conditional_order.pending_order.is_limit_order;
      client_order_id = as_i64 event.conditional_order.pending_order.client_order_id;
      order_type = u8_as_i16 (unwrap_or 0 event.conditional_order.pending_order.order_type);
      self_matching_option = u8_as_i16 event.conditional_order.pending_order.self_matching_option;
      price = unwrap_or 0 event.conditional_order.pending_order.price;
      quantity = event.conditional_order.pending_order.quantity;
      is_bid = event.conditional_order.pending_order.is_bid;
      pay_with_deep = event.conditional_order.pending_order.pay_with_deep;
      expire_timestamp =
          as_i64 (unwrap_or 0 event.conditional_order.pending_order.expire_timestamp);
      onchain_timestamp = as_i64 event.timestamp;
    };
  }

  unfoldable pub conditional_order_cancelled_handler :
      Handler Event.Tpsl.ConditionalOrderCancelled Row.Tpsl.ConditionalOrderEvent
  unfolding event_digest
  conditional_order_cancelled_handler = record {
    processor_name = "conditional_order_cancelled";
    module_name = "tpsl";
    event_name = "ConditionalOrderCancelled";
    table = "conditional_order_events";
    key = λ row. row.event_digest;
    map_event = λ event meta. record {
      event_digest = event_digest meta;
      digest = meta.digest;
      sender = meta.sender;
      checkpoint = meta.checkpoint;
      checkpoint_timestamp_ms = meta.checkpoint_timestamp_ms;
      package_id = meta.package_id;
      event_type = "cancelled";
      manager_id = sdk.object_id_to_string event.manager_id;
      pool_id = none;
      conditional_order_id = as_i64 event.conditional_order_id;
      trigger_below_price = event.conditional_order.condition.trigger_below_price;
      trigger_price = event.conditional_order.condition.trigger_price;
      is_limit_order = event.conditional_order.pending_order.is_limit_order;
      client_order_id = as_i64 event.conditional_order.pending_order.client_order_id;
      order_type = u8_as_i16 (unwrap_or 0 event.conditional_order.pending_order.order_type);
      self_matching_option = u8_as_i16 event.conditional_order.pending_order.self_matching_option;
      price = unwrap_or 0 event.conditional_order.pending_order.price;
      quantity = event.conditional_order.pending_order.quantity;
      is_bid = event.conditional_order.pending_order.is_bid;
      pay_with_deep = event.conditional_order.pending_order.pay_with_deep;
      expire_timestamp =
          as_i64 (unwrap_or 0 event.conditional_order.pending_order.expire_timestamp);
      onchain_timestamp = as_i64 event.timestamp;
    };
  }

  unfoldable pub conditional_order_executed_handler :
      Handler Event.Tpsl.ConditionalOrderExecuted Row.Tpsl.ConditionalOrderEvent
  unfolding event_digest
  conditional_order_executed_handler = record {
    processor_name = "conditional_order_executed";
    module_name = "tpsl";
    event_name = "ConditionalOrderExecuted";
    table = "conditional_order_events";
    key = λ row. row.event_digest;
    map_event = λ event meta. record {
      event_digest = event_digest meta;
      digest = meta.digest;
      sender = meta.sender;
      checkpoint = meta.checkpoint;
      checkpoint_timestamp_ms = meta.checkpoint_timestamp_ms;
      package_id = meta.package_id;
      event_type = "executed";
      manager_id = sdk.object_id_to_string event.manager_id;
      pool_id = some (sdk.object_id_to_string event.pool_id);
      conditional_order_id = as_i64 event.conditional_order_id;
      trigger_below_price = event.conditional_order.condition.trigger_below_price;
      trigger_price = event.conditional_order.condition.trigger_price;
      is_limit_order = event.conditional_order.pending_order.is_limit_order;
      client_order_id = as_i64 event.conditional_order.pending_order.client_order_id;
      order_type = u8_as_i16 (unwrap_or 0 event.conditional_order.pending_order.order_type);
      self_matching_option = u8_as_i16 event.conditional_order.pending_order.self_matching_option;
      price = unwrap_or 0 event.conditional_order.pending_order.price;
      quantity = event.conditional_order.pending_order.quantity;
      is_bid = event.conditional_order.pending_order.is_bid;
      pay_with_deep = event.conditional_order.pending_order.pay_with_deep;
      expire_timestamp =
          as_i64 (unwrap_or 0 event.conditional_order.pending_order.expire_timestamp);
      onchain_timestamp = as_i64 event.timestamp;
    };
  }

  unfoldable pub conditional_order_insufficient_funds_handler :
      Handler Event.Tpsl.ConditionalOrderInsufficientFunds Row.Tpsl.ConditionalOrderEvent
  unfolding event_digest
  conditional_order_insufficient_funds_handler = record {
    processor_name = "conditional_order_insufficient_funds";
    module_name = "tpsl";
    event_name = "ConditionalOrderInsufficientFunds";
    table = "conditional_order_events";
    key = λ row. row.event_digest;
    map_event = λ event meta. record {
      event_digest = event_digest meta;
      digest = meta.digest;
      sender = meta.sender;
      checkpoint = meta.checkpoint;
      checkpoint_timestamp_ms = meta.checkpoint_timestamp_ms;
      package_id = meta.package_id;
      event_type = "insufficient_funds";
      manager_id = sdk.object_id_to_string event.manager_id;
      pool_id = none;
      conditional_order_id = as_i64 event.conditional_order_id;
      trigger_below_price = event.conditional_order.condition.trigger_below_price;
      trigger_price = event.conditional_order.condition.trigger_price;
      is_limit_order = event.conditional_order.pending_order.is_limit_order;
      client_order_id = as_i64 event.conditional_order.pending_order.client_order_id;
      order_type = u8_as_i16 (unwrap_or 0 event.conditional_order.pending_order.order_type);
      self_matching_option = u8_as_i16 event.conditional_order.pending_order.self_matching_option;
      price = unwrap_or 0 event.conditional_order.pending_order.price;
      quantity = event.conditional_order.pending_order.quantity;
      is_bid = event.conditional_order.pending_order.is_bid;
      pay_with_deep = event.conditional_order.pending_order.pay_with_deep;
      expire_timestamp =
          as_i64 (unwrap_or 0 event.conditional_order.pending_order.expire_timestamp);
      onchain_timestamp = as_i64 event.timestamp;
    };
  }
