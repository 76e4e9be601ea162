-- ===== src/Indexer/Handlers/DeepPrice.antt =====
-- deepbookv3/crates/indexer/src/handlers: pool_price_handler.rs.
use rain_protocol.Prelude.Words.{as_i64}
use rain_protocol.Indexer.Sdk.{Sdk}
use rain_protocol.Indexer.Chain.{event_digest}
use rain_protocol.Indexer.Handler.{Handler}
use rain_protocol.Indexer.Event
use rain_protocol.Schema.Row

module _ (sdk : Sdk) where
  unfoldable pub pool_price_handler : Handler Event.DeepPrice.PriceAdded Row.Trading.PoolPrice
  unfolding event_digest
  pool_price_handler = record {
    processor_name = "pool_price";
    module_name = "deep_price";
    event_name = "PriceAdded";
    table = "pool_prices";
    key = λ row. row.event_digest;
    map_event = λ event meta. record {
      event_digest = event_digest meta;
      digest = meta.digest;
      sender = meta.sender;
      checkpoint = meta.checkpoint;
      checkpoint_timestamp_ms = meta.checkpoint_timestamp_ms;
      package_id = meta.package_id;
      target_pool = sdk.object_id_to_string event.target_pool;
      reference_pool = sdk.object_id_to_string event.reference_pool;
      conversion_rate = as_i64 event.conversion_rate;
    };
  }
