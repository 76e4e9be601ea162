-- ===== src/Indexer/Handlers/BalanceManager.antt =====
-- deepbookv3/crates/indexer/src/handlers: balances_handler.rs.
use rain_protocol.Prelude.Words.{as_i64}
use rain_protocol.Indexer.Sdk.{Sdk}
use rain_protocol.Indexer.Chain.{event_digest}
use rain_protocol.Indexer.Handler.{Handler}
use rain_protocol.Indexer.Event
use rain_protocol.Schema.Row

module _ (sdk : Sdk) where
  unfoldable pub balances_handler : Handler Event.BalanceManager.BalanceEvent Row.Trading.Balances
  unfolding event_digest
  balances_handler = record {
    processor_name = "balances";
    module_name = "balance_manager";
    event_name = "BalanceEvent";
    table = "balances";
    key = λ row. row.event_digest;
    map_event = λ event meta. record {
      event_digest = event_digest meta;
      digest = meta.digest;
      sender = meta.sender;
      checkpoint = meta.checkpoint;
      checkpoint_timestamp_ms = meta.checkpoint_timestamp_ms;
      package_id = meta.package_id;
      balance_manager_id = sdk.object_id_to_string event.balance_manager_id;
      asset = event.asset;
      amount = as_i64 event.amount;
      deposit = event.deposit;
    };
  }
