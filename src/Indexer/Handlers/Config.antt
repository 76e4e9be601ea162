-- ===== src/Indexer/Handlers/Config.antt =====
-- deepbookv3/crates/indexer/src/handlers: interest_params_updated_handler.rs,
--   margin_pool_config_updated_handler.rs, margin_pool_created_handler.rs,
--   deepbook_pool_config_updated_handler.rs, deepbook_pool_registered_handler.rs.
use rain_protocol.Prelude.{some}
use rain_protocol.Prelude.Words.{as_i64}
use rain_protocol.Indexer.Sdk.{Sdk}
use rain_protocol.Indexer.Chain.{event_digest}
use rain_protocol.Indexer.ConfigJson.{
  margin_pool_config_to_value, interest_config_to_value, protocol_config_to_value,
  pool_config_to_value,
}
use rain_protocol.Indexer.Handler.{Handler}
use rain_protocol.Indexer.Event
use rain_protocol.Schema.Row

module _ (sdk : Sdk) where
  unfoldable pub interest_params_updated_handler :
      Handler Event.MarginPool.InterestParamsUpdated Row.Config.InterestParamsUpdated
  unfolding event_digest
  interest_params_updated_handler = record {
    processor_name = "interest_params_updated";
    module_name = "margin_pool";
    event_name = "InterestParamsUpdated";
    table = "interest_params_updated";
    key = λ row. row.event_digest;
    map_event = λ event meta. record {
      event_digest = event_digest meta;
      digest = meta.digest;
      sender = meta.sender;
      checkpoint = meta.checkpoint;
      checkpoint_timestamp_ms = meta.checkpoint_timestamp_ms;
      package_id = meta.package_id;
      margin_pool_id = sdk.object_id_to_string event.margin_pool_id;
      pool_cap_id = sdk.object_id_to_string event.pool_cap_id;
      config_json = interest_config_to_value event.interest_config;
      onchain_timestamp = as_i64 event.timestamp;
    };
  }

  unfoldable pub margin_pool_config_updated_handler :
      Handler Event.MarginPool.MarginPoolConfigUpdated Row.Config.MarginPoolConfigUpdated
  unfolding event_digest
  margin_pool_config_updated_handler = record {
    processor_name = "margin_pool_config_updated";
    module_name = "margin_pool";
    event_name = "MarginPoolConfigUpdated";
    table = "margin_pool_config_updated";
    key = λ row. row.event_digest;
    map_event = λ event meta. record {
      event_digest = event_digest meta;
      digest = meta.digest;
      sender = meta.sender;
      checkpoint = meta.checkpoint;
      checkpoint_timestamp_ms = meta.checkpoint_timestamp_ms;
      package_id = meta.package_id;
      margin_pool_id = sdk.object_id_to_string event.margin_pool_id;
      pool_cap_id = sdk.object_id_to_string event.pool_cap_id;
      config_json = margin_pool_config_to_value event.margin_pool_config;
      onchain_timestamp = as_i64 event.timestamp;
    };
  }

  unfoldable pub margin_pool_created_handler :
      Handler Event.MarginPool.MarginPoolCreated Row.Config.MarginPoolCreated
  unfolding event_digest
  margin_pool_created_handler = record {
    processor_name = "margin_pool_created";
    module_name = "margin_pool";
    event_name = "MarginPoolCreated";
    table = "margin_pool_created";
    key = λ row. row.event_digest;
    map_event = λ event meta. record {
      event_digest = event_digest meta;
      digest = meta.digest;
      sender = meta.sender;
      checkpoint = meta.checkpoint;
      checkpoint_timestamp_ms = meta.checkpoint_timestamp_ms;
      package_id = meta.package_id;
      margin_pool_id = sdk.object_id_to_string event.margin_pool_id;
      maintainer_cap_id = sdk.object_id_to_string event.maintainer_cap_id;
      asset_type = event.asset_type;
      config_json = protocol_config_to_value sdk event.config;
      onchain_timestamp = as_i64 event.timestamp;
    };
  }

  unfoldable pub deepbook_pool_config_updated_handler :
      Handler Event.MarginRegistry.DeepbookPoolConfigUpdated Row.Config.DeepbookPoolConfigUpdated
  unfolding event_digest
  deepbook_pool_config_updated_handler = record {
    processor_name = "deepbook_pool_config_updated";
    module_name = "margin_registry";
    event_name = "DeepbookPoolConfigUpdated";
    table = "deepbook_pool_config_updated";
    key = λ row. row.event_digest;
    map_event = λ event meta. record {
      event_digest = event_digest meta;
      digest = meta.digest;
      sender = meta.sender;
      checkpoint = meta.checkpoint;
      checkpoint_timestamp_ms = meta.checkpoint_timestamp_ms;
      package_id = meta.package_id;
      pool_id = sdk.object_id_to_string event.pool_id;
      config_json = pool_config_to_value sdk event.config;
      onchain_timestamp = as_i64 event.timestamp;
    };
  }

  unfoldable pub deepbook_pool_registered_handler :
      Handler Event.MarginRegistry.DeepbookPoolRegistered Row.Config.DeepbookPoolRegistered
  unfolding event_digest
  deepbook_pool_registered_handler = record {
    processor_name = "deepbook_pool_registered";
    module_name = "margin_registry";
    event_name = "DeepbookPoolRegistered";
    table = "deepbook_pool_registered";
    key = λ row. row.event_digest;
    map_event = λ event meta. record {
      event_digest = event_digest meta;
      digest = meta.digest;
      sender = meta.sender;
      checkpoint = meta.checkpoint;
      checkpoint_timestamp_ms = meta.checkpoint_timestamp_ms;
      package_id = meta.package_id;
      pool_id = sdk.object_id_to_string event.pool_id;
      config_json = some (pool_config_to_value sdk event.config);
      onchain_timestamp = as_i64 event.timestamp;
    };
  }
