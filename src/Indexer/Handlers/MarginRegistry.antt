-- ===== src/Indexer/Handlers/MarginRegistry.antt =====
-- deepbookv3/crates/indexer/src/handlers: deepbook_pool_updated_registry_handler.rs,
--   maintainer_cap_updated_handler.rs, pause_cap_updated_handler.rs.
use rain_protocol.Prelude.Words.{as_i64}
use rain_protocol.Indexer.Sdk.{Sdk}
use rain_protocol.Indexer.Chain.{event_digest}
use rain_protocol.Indexer.Handler.{Handler}
use rain_protocol.Indexer.Event
use rain_protocol.Schema.Row

module _ (sdk : Sdk) where
  unfoldable pub deepbook_pool_updated_registry_handler :
      Handler Event.MarginRegistry.DeepbookPoolUpdated
        Row.MarginRegistry.DeepbookPoolUpdatedRegistry
  unfolding event_digest
  deepbook_pool_updated_registry_handler = record {
    processor_name = "deepbook_pool_updated_registry";
    module_name = "margin_registry";
    event_name = "DeepbookPoolUpdated";
    table = "deepbook_pool_updated_registry";
    key = λ row. row.event_digest;
    map_event = λ event meta. record {
      event_digest = event_digest meta;
      digest = meta.digest;
      sender = meta.sender;
      checkpoint = meta.checkpoint;
      checkpoint_timestamp_ms = meta.checkpoint_timestamp_ms;
      package_id = meta.package_id;
      pool_id = sdk.object_id_to_string event.pool_id;
      enabled = event.enabled;
      onchain_timestamp = as_i64 event.timestamp;
    };
  }

  unfoldable pub maintainer_cap_updated_handler :
      Handler Event.MarginRegistry.MaintainerCapUpdated Row.MarginRegistry.MaintainerCapUpdated
  unfolding event_digest
  maintainer_cap_updated_handler = record {
    processor_name = "maintainer_cap_updated";
    module_name = "margin_registry";
    event_name = "MaintainerCapUpdated";
    table = "maintainer_cap_updated";
    key = λ row. row.event_digest;
    map_event = λ event meta. record {
      event_digest = event_digest meta;
      digest = meta.digest;
      sender = meta.sender;
      checkpoint = meta.checkpoint;
      checkpoint_timestamp_ms = meta.checkpoint_timestamp_ms;
      package_id = meta.package_id;
      maintainer_cap_id = sdk.object_id_to_string event.maintainer_cap_id;
      allowed = event.allowed;
      onchain_timestamp = as_i64 event.timestamp;
    };
  }

  unfoldable pub pause_cap_updated_handler :
      Handler Event.MarginRegistry.PauseCapUpdated Row.MarginRegistry.PauseCapUpdated
  unfolding event_digest
  pause_cap_updated_handler = record {
    processor_name = "pause_cap_updated";
    module_name = "margin_registry";
    event_name = "PauseCapUpdated";
    table = "pause_cap_updated";
    key = λ row. row.event_digest;
    map_event = λ event meta. record {
      event_digest = event_digest meta;
      digest = meta.digest;
      sender = meta.sender;
      checkpoint = meta.checkpoint;
      checkpoint_timestamp_ms = meta.checkpoint_timestamp_ms;
      package_id = meta.package_id;
      pause_cap_id = sdk.object_id_to_string event.pause_cap_id;
      allowed = event.allowed;
      onchain_timestamp = as_i64 event.timestamp;
    };
  }
