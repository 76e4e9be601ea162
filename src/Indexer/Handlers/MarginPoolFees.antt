-- ===== src/Indexer/Handlers/MarginPoolFees.antt =====
-- deepbookv3/crates/indexer/src/handlers: maintainer_fees_withdrawn_handler.rs,
--   protocol_fees_withdrawn_handler.rs, supplier_cap_minted_handler.rs,
--   supply_referral_minted_handler.rs.
use rain_protocol.Prelude.Words.{as_i64}
use rain_protocol.Indexer.Sdk.{Sdk}
use rain_protocol.Indexer.Chain.{event_digest}
use rain_protocol.Indexer.Handler.{Handler}
use rain_protocol.Indexer.Event
use rain_protocol.Schema.Row

module _ (sdk : Sdk) where
  unfoldable pub maintainer_fees_withdrawn_handler :
      Handler Event.MarginPool.MaintainerFeesWithdrawn Row.MarginPool.MaintainerFeesWithdrawn
  unfolding event_digest
  maintainer_fees_withdrawn_handler = record {
    processor_name = "maintainer_fees_withdrawn";
    module_name = "margin_pool";
    event_name = "MaintainerFeesWithdrawn";
    table = "maintainer_fees_withdrawn";
    key = λ row. row.event_digest;
    map_event = λ event meta. record {
      event_digest = event_digest meta;
      digest = meta.digest;
      sender = meta.sender;
      checkpoint = meta.checkpoint;
      checkpoint_timestamp_ms = meta.checkpoint_timestamp_ms;
      package_id = meta.package_id;
      margin_pool_id = sdk.object_id_to_string event.margin_pool_id;
      margin_pool_cap_id = sdk.object_id_to_string event.margin_pool_cap_id;
      maintainer_fees = as_i64 event.maintainer_fees;
      onchain_timestamp = as_i64 event.timestamp;
    };
  }

  unfoldable pub protocol_fees_withdrawn_handler :
      Handler Event.MarginPool.ProtocolFeesWithdrawn Row.MarginPool.ProtocolFeesWithdrawn
  unfolding event_digest
  protocol_fees_withdrawn_handler = record {
    processor_name = "protocol_fees_withdrawn";
    module_name = "margin_pool";
    event_name = "ProtocolFeesWithdrawn";
    table = "protocol_fees_withdrawn";
    key = λ row. row.event_digest;
    map_event = λ event meta. record {
      event_digest = event_digest meta;
      digest = meta.digest;
      sender = meta.sender;
      checkpoint = meta.checkpoint;
      checkpoint_timestamp_ms = meta.checkpoint_timestamp_ms;
      package_id = meta.package_id;
      margin_pool_id = sdk.object_id_to_string event.margin_pool_id;
      protocol_fees = as_i64 event.protocol_fees;
      onchain_timestamp = as_i64 event.timestamp;
    };
  }

  unfoldable pub supplier_cap_minted_handler :
      Handler Event.MarginPool.SupplierCapMinted Row.MarginPool.SupplierCapMinted
  unfolding event_digest
  supplier_cap_minted_handler = record {
    processor_name = "supplier_cap_minted";
    module_name = "margin_pool";
    event_name = "SupplierCapMinted";
    table = "supplier_cap_minted";
    key = λ row. row.event_digest;
    map_event = λ event meta. record {
      event_digest = event_digest meta;
      digest = meta.digest;
      sender = meta.sender;
      checkpoint = meta.checkpoint;
      checkpoint_timestamp_ms = meta.checkpoint_timestamp_ms;
      package_id = meta.package_id;
      supplier_cap_id = sdk.object_id_to_string event.supplier_cap_id;
      onchain_timestamp = as_i64 event.timestamp;
    };
  }

  unfoldable pub supply_referral_minted_handler :
      Handler Event.MarginPool.SupplyReferralMinted Row.MarginPool.SupplyReferralMinted
  unfolding event_digest
  supply_referral_minted_handler = record {
    processor_name = "supply_referral_minted";
    module_name = "margin_pool";
    event_name = "SupplyReferralMinted";
    table = "supply_referral_minted";
    key = λ row. row.event_digest;
    map_event = λ event meta. record {
      event_digest = event_digest meta;
      digest = meta.digest;
      sender = meta.sender;
      checkpoint = meta.checkpoint;
      checkpoint_timestamp_ms = meta.checkpoint_timestamp_ms;
      package_id = meta.package_id;
      margin_pool_id = sdk.object_id_to_string event.margin_pool_id;
      supply_referral_id = sdk.object_id_to_string event.supply_referral_id;
      owner = sdk.address_to_string event.owner;
      onchain_timestamp = as_i64 event.timestamp;
    };
  }
