-- ===== src/Indexer/Handlers/MarginManager.antt =====
-- deepbookv3/crates/indexer/src/handlers: liquidation_handler.rs, loan_borrowed_handler.rs,
--   loan_repaid_handler.rs, margin_manager_created_handler.rs.
use rain_protocol.Prelude.{some}
use rain_protocol.Prelude.Words.{as_i64, u8_as_i16}
use rain_protocol.Indexer.Sdk.{Sdk}
use rain_protocol.Indexer.Chain.{event_digest}
use rain_protocol.Indexer.Handler.{Handler}
use rain_protocol.Indexer.Event
use rain_protocol.Schema.Row

module _ (sdk : Sdk) where
  unfoldable pub liquidation_handler :
      Handler Event.MarginManager.LiquidationEvent Row.MarginManager.Liquidation
  unfolding event_digest
  liquidation_handler = record {
    processor_name = "liquidation";
    module_name = "margin_manager";
    event_name = "LiquidationEvent";
    table = "liquidation";
    key = λ row. row.event_digest;
    map_event = λ event meta. record {
      event_digest = event_digest meta;
      digest = meta.digest;
      sender = meta.sender;
      checkpoint = meta.checkpoint;
      checkpoint_timestamp_ms = meta.checkpoint_timestamp_ms;
      package_id = meta.package_id;
      margin_manager_id = sdk.object_id_to_string event.margin_manager_id;
      margin_pool_id = sdk.object_id_to_string event.margin_pool_id;
      liquidation_amount = as_i64 event.liquidation_amount;
      pool_reward = as_i64 event.pool_reward;
      pool_default = as_i64 event.pool_default;
      risk_ratio = as_i64 event.risk_ratio;
      onchain_timestamp = as_i64 event.timestamp;
      remaining_base_asset = event.remaining_base_asset;
      remaining_quote_asset = event.remaining_quote_asset;
      remaining_base_debt = event.remaining_base_debt;
      remaining_quote_debt = event.remaining_quote_debt;
      base_pyth_price = as_i64 event.base_pyth_price;
      base_pyth_decimals = u8_as_i16 event.base_pyth_decimals;
      quote_pyth_price = as_i64 event.quote_pyth_price;
      quote_pyth_decimals = u8_as_i16 event.quote_pyth_decimals;
    };
  }

  unfoldable pub loan_borrowed_handler :
      Handler Event.MarginManager.LoanBorrowedEvent Row.MarginManager.LoanBorrowed
  unfolding event_digest
  loan_borrowed_handler = record {
    processor_name = "loan_borrowed";
    module_name = "margin_manager";
    event_name = "LoanBorrowedEvent";
    table = "loan_borrowed";
    key = λ row. row.event_digest;
    map_event = λ event meta. record {
      event_digest = event_digest meta;
      digest = meta.digest;
      sender = meta.sender;
      checkpoint = meta.checkpoint;
      checkpoint_timestamp_ms = meta.checkpoint_timestamp_ms;
      package_id = meta.package_id;
      margin_manager_id = sdk.object_id_to_string event.margin_manager_id;
      margin_pool_id = sdk.object_id_to_string event.margin_pool_id;
      loan_amount = as_i64 event.loan_amount;
      loan_shares = as_i64 event.loan_shares;
      onchain_timestamp = as_i64 event.timestamp;
    };
  }

  unfoldable pub loan_repaid_handler :
      Handler Event.MarginManager.LoanRepaidEvent Row.MarginManager.LoanRepaid
  unfolding event_digest
  loan_repaid_handler = record {
    processor_name = "loan_repaid";
    module_name = "margin_manager";
    event_name = "LoanRepaidEvent";
    table = "loan_repaid";
    key = λ row. row.event_digest;
    map_event = λ event meta. record {
      event_digest = event_digest meta;
      digest = meta.digest;
      sender = meta.sender;
      checkpoint = meta.checkpoint;
      checkpoint_timestamp_ms = meta.checkpoint_timestamp_ms;
      package_id = meta.package_id;
      margin_manager_id = sdk.object_id_to_string event.margin_manager_id;
      margin_pool_id = sdk.object_id_to_string event.margin_pool_id;
      repay_amount = as_i64 event.repay_amount;
      repay_shares = as_i64 event.repay_shares;
      onchain_timestamp = as_i64 event.timestamp;
    };
  }

  unfoldable pub margin_manager_created_handler :
      Handler Event.MarginManager.MarginManagerCreatedEvent Row.MarginManager.MarginManagerCreated
  unfolding event_digest
  margin_manager_created_handler = record {
    processor_name = "margin_manager_created";
    module_name = "margin_manager";
    event_name = "MarginManagerCreatedEvent";
    table = "margin_manager_created";
    key = λ row. row.event_digest;
    map_event = λ event meta. record {
      event_digest = event_digest meta;
      digest = meta.digest;
      sender = meta.sender;
      checkpoint = meta.checkpoint;
      checkpoint_timestamp_ms = meta.checkpoint_timestamp_ms;
      package_id = meta.package_id;
      margin_manager_id = sdk.object_id_to_string event.margin_manager_id;
      balance_manager_id = sdk.object_id_to_string event.balance_manager_id;
      deepbook_pool_id = some (sdk.object_id_to_string event.deepbook_pool_id);
      owner = sdk.address_to_string event.owner;
      onchain_timestamp = as_i64 event.timestamp;
    };
  }
