-- ===== src/Indexer/TradeParams.antt =====
-- deepbookv3/crates/indexer/src/handlers/trade_params_update_handler.rs: the event names no pool, so
-- the handler takes the first input object that is a DeepBook `Pool`.
pub mod Transactions
use rain_protocol.Prelude.{
  String, Bool, true, false, ◌&&◌, List, [], ◌∷◌, Option, none, some, find, str_eq,
}
use rain_protocol.Prelude.Words.{as_i64}
use rain_protocol.Prelude.Result.{Result, ok, ◌>>=◌}
use rain_protocol.Indexer.Sdk.{Bytes, Sdk}
use rain_protocol.Indexer.Config.{DeepbookEnv, Error, package_addresses}
use rain_protocol.Indexer.Chain.{
  Event, Object, ExecutedTransaction, Checkpoint, event_digest, from_checkpoint_tx, is_deepbook_tx,
  among,
}
use rain_protocol.Indexer.Handler.{Handler}
use rain_protocol.Indexer.Process.{process_events}
use rain_protocol.Indexer.Event.Governance.{TradeParamsUpdateEvent}
use rain_protocol.Schema.Row.Governance.{TradeParamsUpdate}

abbrev pub is_pool : List Bytes → Object → Bool
is_pool addresses obj = elim obj.type_ [
  | none ↦ false
  | some t ↦ among addresses t.address && str_eq t.name "Pool"
]

module _ (sdk : Sdk) where
  abbrev pub id_or_zero : Option Object → String
  id_or_zero none = "0x0"
  id_or_zero (some o) = sdk.object_id_to_hex_uncompressed o.id

  unfoldable pub pool_id_of : List Bytes → ExecutedTransaction → String
  pool_id_of addresses tx = id_or_zero (find (is_pool addresses) tx.input_objects)

  -- The rows of one transaction, whose pool is fixed before its events are read.
  unfoldable pub trade_params_update_handler :
      String → Handler TradeParamsUpdateEvent TradeParamsUpdate
  unfolding event_digest
  trade_params_update_handler pool_id = record {
    processor_name = "trade_params_update";
    module_name = "governance";
    event_name = "TradeParamsUpdateEvent";
    table = "trade_params_update";
    key = λ row. row.event_digest;
    map_event = λ event meta. record {
      event_digest = event_digest meta;
      digest = meta.digest;
      sender = meta.sender;
      checkpoint = meta.checkpoint;
      checkpoint_timestamp_ms = meta.checkpoint_timestamp_ms;
      package_id = meta.package_id;
      pool_id = pool_id;
      taker_fee = as_i64 event.taker_fee;
      maker_fee = as_i64 event.maker_fee;
      stake_required = as_i64 event.stake_required;
    };
  }

  module _ (from_bytes : Bytes → Option TradeParamsUpdateEvent) (env : DeepbookEnv) where
    abbrev process_body :
        Checkpoint
        → ExecutedTransaction
        → Bool
        → Option (List Event)
        → List TradeParamsUpdate
        → Result (List TradeParamsUpdate) Error
    process_body checkpoint tx false events results = ok results
    process_body checkpoint tx true none results = ok results
    process_body checkpoint tx true (some events) results = do
      addresses ← package_addresses sdk env
      process_events sdk (trade_params_update_handler (pool_id_of addresses tx)) from_bytes env
          (from_checkpoint_tx sdk checkpoint tx) 0 events results

    unfoldable pub process_txs :
        Checkpoint
        → List ExecutedTransaction
        → List TradeParamsUpdate
        → Result (List TradeParamsUpdate) Error
    process_txs checkpoint [] results = ok results
    process_txs checkpoint (tx ∷ rest) results = do
      relevant ← is_deepbook_tx sdk tx env
      results' ← process_body checkpoint tx relevant tx.events results
      process_txs checkpoint rest results'

    unfoldable pub process : Checkpoint → Result (List TradeParamsUpdate) Error
    unfolding process_txs process_events
    process checkpoint = process_txs checkpoint checkpoint.transactions []
