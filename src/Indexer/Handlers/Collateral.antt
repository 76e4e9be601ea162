-- ===== src/Indexer/Handlers/Collateral.antt =====
-- deepbookv3/crates/indexer/src/handlers: deposit_collateral_handler.rs,
--   withdraw_collateral_handler.rs.
use rain_protocol.Prelude.{some, none}
use rain_protocol.Prelude.Words.{as_i64, u8_as_i16}
use rain_protocol.Indexer.Sdk.{Sdk}
use rain_protocol.Indexer.Chain.{event_digest}
use rain_protocol.Indexer.Handler.{Handler}
use rain_protocol.Indexer.Event
use rain_protocol.Schema.Row

module _ (sdk : Sdk) where
  unfoldable pub deposit_collateral_handler :
      Handler Event.MarginManager.DepositCollateralEvent Row.MarginManager.CollateralEvent
  unfolding event_digest
  deposit_collateral_handler = record {
    processor_name = "deposit_collateral";
    module_name = "margin_manager";
    event_name = "DepositCollateralEvent";
    table = "collateral_events";
    key = λ row. row.event_digest;
    map_event = λ event meta. record {
      event_digest = event_digest meta;
      digest = meta.digest;
      sender = meta.sender;
      checkpoint = meta.checkpoint;
      checkpoint_timestamp_ms = meta.checkpoint_timestamp_ms;
      package_id = meta.package_id;
      event_type = "deposit";
      margin_manager_id = sdk.object_id_to_string event.margin_manager_id;
      amount = event.amount;
      asset_type = event.asset.name;
      pyth_decimals = u8_as_i16 event.pyth_decimals;
      pyth_price = event.pyth_price;
      withdraw_base_asset = none;
      base_pyth_decimals = none;
      base_pyth_price = none;
      quote_pyth_decimals = none;
      quote_pyth_price = none;
      remaining_base_asset = none;
      remaining_quote_asset = none;
      remaining_base_debt = none;
      remaining_quote_debt = none;
      onchain_timestamp = as_i64 event.timestamp;
    };
  }

  unfoldable pub withdraw_collateral_handler :
      Handler Event.MarginManager.WithdrawCollateralEvent Row.MarginManager.CollateralEvent
  unfolding event_digest
  withdraw_collateral_handler = record {
    processor_name = "withdraw_collateral";
    module_name = "margin_manager";
    event_name = "WithdrawCollateralEvent";
    table = "collateral_events";
    key = λ row. row.event_digest;
    map_event = λ event meta. record {
      event_digest = event_digest meta;
      digest = meta.digest;
      sender = meta.sender;
      checkpoint = meta.checkpoint;
      checkpoint_timestamp_ms = meta.checkpoint_timestamp_ms;
      package_id = meta.package_id;
      event_type = "withdraw";
      margin_manager_id = sdk.object_id_to_string event.margin_manager_id;
      amount = event.amount;
      asset_type = event.asset.name;
      pyth_decimals = u8_as_i16 event.base_pyth_decimals;
      pyth_price = event.base_pyth_price;
      withdraw_base_asset = some (event.withdraw_base_asset);
      base_pyth_decimals = some (u8_as_i16 event.base_pyth_decimals);
      base_pyth_price = some (event.base_pyth_price);
      quote_pyth_decimals = some (u8_as_i16 event.quote_pyth_decimals);
      quote_pyth_price = some (event.quote_pyth_price);
      remaining_base_asset = some (event.remaining_base_asset);
      remaining_quote_asset = some (event.remaining_quote_asset);
      remaining_base_debt = some (event.remaining_base_debt);
      remaining_quote_debt = some (event.remaining_quote_debt);
      onchain_timestamp = as_i64 event.timestamp;
    };
  }
