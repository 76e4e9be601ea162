-- ===== src/Indexer/Handlers/Pool.antt =====
-- deepbookv3/crates/indexer/src/handlers: referral_fee_event_handler.rs.
use rain_protocol.Prelude.Words.{as_i64}
use rain_protocol.Indexer.Sdk.{Sdk}
use rain_protocol.Indexer.Chain.{event_digest}
use rain_protocol.Indexer.Handler.{Handler}
use rain_protocol.Indexer.Event
use rain_protocol.Schema.Row

module _ (sdk : Sdk) where
  unfoldable pub referral_fee_event_handler :
      Handler Event.Pool.ReferralFeeEvent Row.Trading.ReferralFeeEvent
  unfolding event_digest
  referral_fee_event_handler = record {
    processor_name = "referral_fee_events";
    module_name = "pool";
    event_name = "ReferralFeeEvent";
    table = "referral_fee_events";
    key = λ row. row.event_digest;
    map_event = λ event meta. record {
      event_digest = event_digest meta;
      digest = meta.digest;
      sender = meta.sender;
      checkpoint = meta.checkpoint;
      checkpoint_timestamp_ms = meta.checkpoint_timestamp_ms;
      package_id = meta.package_id;
      pool_id = sdk.object_id_to_string event.pool_id;
      referral_id = sdk.object_id_to_string event.referral_id;
      base_fee = as_i64 event.base_fee;
      quote_fee = as_i64 event.quote_fee;
      deep_fee = as_i64 event.deep_fee;
    };
  }
