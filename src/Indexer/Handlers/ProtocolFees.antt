-- ===== src/Indexer/Handlers/ProtocolFees.antt =====
-- deepbookv3/crates/indexer/src/handlers: protocol_fees_increased_handler.rs,
--   referral_fees_claimed_handler.rs.
use rain_protocol.Prelude.Words.{as_i64}
use rain_protocol.Indexer.Sdk.{Sdk}
use rain_protocol.Indexer.Chain.{event_digest}
use rain_protocol.Indexer.Handler.{Handler}
use rain_protocol.Indexer.Event
use rain_protocol.Schema.Row

module _ (sdk : Sdk) where
  unfoldable pub protocol_fees_increased_handler :
      Handler Event.ProtocolFees.ProtocolFeesIncreasedEvent
        Row.MarginPool.ProtocolFeesIncreasedEvent
  unfolding event_digest
  protocol_fees_increased_handler = record {
    processor_name = "protocol_fees_increased";
    module_name = "protocol_fees";
    event_name = "ProtocolFeesIncreasedEvent";
    table = "protocol_fees_increased";
    key = λ row. row.event_digest;
    map_event = λ event meta. record {
      event_digest = event_digest meta;
      digest = meta.digest;
      sender = meta.sender;
      checkpoint = meta.checkpoint;
      checkpoint_timestamp_ms = meta.checkpoint_timestamp_ms;
      package_id = meta.package_id;
      margin_pool_id = sdk.object_id_to_string event.margin_pool_id;
      total_shares = as_i64 event.total_shares;
      referral_fees = as_i64 event.referral_fees;
      maintainer_fees = as_i64 event.maintainer_fees;
      protocol_fees = as_i64 event.protocol_fees;
      onchain_timestamp = meta.checkpoint_timestamp_ms;
    };
  }

  unfoldable pub referral_fees_claimed_handler :
      Handler Event.ProtocolFees.ReferralFeesClaimedEvent Row.MarginPool.ReferralFeesClaimedEvent
  unfolding event_digest
  referral_fees_claimed_handler = record {
    processor_name = "referral_fees_claimed";
    module_name = "protocol_fees";
    event_name = "ReferralFeesClaimedEvent";
    table = "referral_fees_claimed";
    key = λ row. row.event_digest;
    map_event = λ event meta. record {
      event_digest = event_digest meta;
      digest = meta.digest;
      sender = meta.sender;
      checkpoint = meta.checkpoint;
      checkpoint_timestamp_ms = meta.checkpoint_timestamp_ms;
      package_id = meta.package_id;
      referral_id = sdk.object_id_to_string event.referral_id;
      owner = sdk.address_to_string event.owner;
      fees = as_i64 event.fees;
      onchain_timestamp = meta.checkpoint_timestamp_ms;
    };
  }
