-- ===== src/Indexer/Handlers/PoolEvents.antt =====
-- deepbookv3/crates/indexer/src/handlers: pool_created_handler.rs, deep_burned_handler.rs. They write
-- the macro's loop out, with the same guards and metadata, so `Process.process` is their `process`.
use rain_protocol.Prelude.Words.{as_i64}
use rain_protocol.Indexer.Sdk.{Sdk}
use rain_protocol.Indexer.Chain.{event_digest}
use rain_protocol.Indexer.Handler.{Handler}
use rain_protocol.Indexer.Event
use rain_protocol.Schema.Row

module _ (sdk : Sdk) where
  unfoldable pub pool_created_handler : Handler Event.Pool.PoolCreated Row.Trading.PoolCreated
  unfolding event_digest
  pool_created_handler = record {
    processor_name = "pool_created";
    module_name = "pool";
    event_name = "PoolCreated";
    table = "pool_created";
    key = λ row. row.event_digest;
    map_event = λ event meta. record {
      event_digest = event_digest meta;
      digest = meta.digest;
      sender = meta.sender;
      checkpoint = meta.checkpoint;
      checkpoint_timestamp_ms = meta.checkpoint_timestamp_ms;
      package_id = meta.package_id;
      pool_id = sdk.object_id_to_string event.pool_id;
      taker_fee = as_i64 event.taker_fee;
      maker_fee = as_i64 event.maker_fee;
      tick_size = as_i64 event.tick_size;
      lot_size = as_i64 event.lot_size;
      min_size = as_i64 event.min_size;
      whitelisted_pool = event.whitelisted_pool;
      treasury_address = sdk.address_to_string event.treasury_address;
    };
  }

  unfoldable pub deep_burned_handler : Handler Event.Pool.DeepBurned Row.Trading.DeepBurned
  unfolding event_digest
  deep_burned_handler = record {
    processor_name = "deep_burned";
    module_name = "pool";
    event_name = "DeepBurned";
    table = "deep_burned";
    key = λ row. row.event_digest;
    map_event = λ event meta. record {
      event_digest = event_digest meta;
      digest = meta.digest;
      sender = meta.sender;
      checkpoint = meta.checkpoint;
      checkpoint_timestamp_ms = meta.checkpoint_timestamp_ms;
      package_id = meta.package_id;
      pool_id = sdk.object_id_to_string event.pool_id;
      burned_amount = as_i64 event.deep_burned;
    };
  }
