-- ===== src/Indexer/Handlers/MarginPool.antt =====
-- deepbookv3/crates/indexer/src/handlers: asset_supplied_handler.rs,
--   asset_withdrawn_handler.rs, deepbook_pool_updated_handler.rs.
use rain_protocol.Prelude.Words.{as_i64}
use rain_protocol.Indexer.Sdk.{Sdk}
use rain_protocol.Indexer.Chain.{event_digest}
use rain_protocol.Indexer.Handler.{Handler}
use rain_protocol.Indexer.Event
use rain_protocol.Schema.Row

module _ (sdk : Sdk) where
  unfoldable pub asset_supplied_handler :
      Handler Event.MarginPool.AssetSupplied Row.MarginPool.AssetSupplied
  unfolding event_digest
  asset_supplied_handler = record {
    processor_name = "asset_supplied";
    module_name = "margin_pool";
    event_name = "AssetSupplied";
    table = "asset_supplied";
    key = λ row. row.event_digest;
    map_event = λ event meta. record {
      event_digest = event_digest meta;
      digest = meta.digest;
      sender = meta.sender;
      checkpoint = meta.checkpoint;
      checkpoint_timestamp_ms = meta.checkpoint_timestamp_ms;
      package_id = meta.package_id;
      margin_pool_id = sdk.object_id_to_string event.margin_pool_id;
      asset_type = event.asset_type;
      supplier = sdk.address_to_string event.supplier;
      amount = as_i64 event.supply_amount;
      shares = as_i64 event.supply_shares;
      onchain_timestamp = as_i64 event.timestamp;
    };
  }

  unfoldable pub asset_withdrawn_handler :
      Handler Event.MarginPool.AssetWithdrawn Row.MarginPool.AssetWithdrawn
  unfolding event_digest
  asset_withdrawn_handler = record {
    processor_name = "asset_withdrawn";
    module_name = "margin_pool";
    event_name = "AssetWithdrawn";
    table = "asset_withdrawn";
    key = λ row. row.event_digest;
    map_event = λ event meta. record {
      event_digest = event_digest meta;
      digest = meta.digest;
      sender = meta.sender;
      checkpoint = meta.checkpoint;
      checkpoint_timestamp_ms = meta.checkpoint_timestamp_ms;
      package_id = meta.package_id;
      margin_pool_id = sdk.object_id_to_string event.margin_pool_id;
      asset_type = event.asset_type;
      supplier = sdk.address_to_string event.supplier;
      amount = as_i64 event.withdraw_amount;
      shares = as_i64 event.withdraw_shares;
      onchain_timestamp = as_i64 event.timestamp;
    };
  }

  unfoldable pub deepbook_pool_updated_handler :
      Handler Event.MarginPool.DeepbookPoolUpdated Row.MarginPool.DeepbookPoolUpdated
  unfolding event_digest
  deepbook_pool_updated_handler = record {
    processor_name = "deepbook_pool_updated";
    module_name = "margin_pool";
    event_name = "DeepbookPoolUpdated";
    table = "deepbook_pool_updated";
    key = λ row. row.event_digest;
    map_event = λ event meta. record {
      event_digest = event_digest meta;
      digest = meta.digest;
      sender = meta.sender;
      checkpoint = meta.checkpoint;
      checkpoint_timestamp_ms = meta.checkpoint_timestamp_ms;
      package_id = meta.package_id;
      margin_pool_id = sdk.object_id_to_string event.margin_pool_id;
      deepbook_pool_id = sdk.object_id_to_string event.deepbook_pool_id;
      pool_cap_id = sdk.object_id_to_string event.pool_cap_id;
      enabled = event.enabled;
      onchain_timestamp = as_i64 event.timestamp;
    };
  }
