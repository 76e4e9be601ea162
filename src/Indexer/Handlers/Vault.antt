-- ===== src/Indexer/Handlers/Vault.antt =====
-- deepbookv3/crates/indexer/src/handlers: flash_loan_handler.rs.
use rain_protocol.Prelude.{true}
use rain_protocol.Prelude.Words.{as_i64}
use rain_protocol.Indexer.Sdk.{Sdk}
use rain_protocol.Indexer.Chain.{event_digest}
use rain_protocol.Indexer.Handler.{Handler}
use rain_protocol.Indexer.Event
use rain_protocol.Schema.Row

module _ (sdk : Sdk) where
  unfoldable pub flash_loan_handler : Handler Event.Vault.FlashLoanBorrowed Row.Trading.Flashloan
  unfolding event_digest
  flash_loan_handler = record {
    processor_name = "flash_loan";
    module_name = "vault";
    event_name = "FlashLoanBorrowed";
    table = "flashloans";
    key = λ row. row.event_digest;
    map_event = λ event meta. record {
      event_digest = event_digest meta;
      digest = meta.digest;
      sender = meta.sender;
      checkpoint = meta.checkpoint;
      checkpoint_timestamp_ms = meta.checkpoint_timestamp_ms;
      package_id = meta.package_id;
      pool_id = sdk.object_id_to_string event.pool_id;
      borrow_quantity = as_i64 event.borrow_quantity;
      borrow = true;
      type_name = event.type_name;
    };
  }
