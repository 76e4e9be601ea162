-- ===== src/Indexer/OrderUpdate.antt =====
-- deepbookv3/crates/indexer/src/handlers/order_update_handler.rs: one table for four kinds of events.
pub mod Laws
pub mod Transactions
use rain_protocol.Prelude.{
  ℕ, ◌+◌, String, Bool, true, false, List, [], ◌∷◌, ◌++◌, ◌<>◌, Option, none, some, unwrap_or,
  if◌then◌else◌,
}
use rain_protocol.Prelude.Int.{ℤ, pos}
use rain_protocol.Prelude.Words.{as_i64, sub_u64}
use rain_protocol.Prelude.Decimal.{show_ℕ}
use rain_protocol.Prelude.Result.{Result, ok, err, ok_or, ◌>>=◌}
use rain_protocol.Indexer.Sdk.{Bytes, Sdk}
use rain_protocol.Indexer.Config.{DeepbookEnv, Error, decode_failed}
use rain_protocol.Indexer.MoveStruct.{StructTag, matches_event_type}
use rain_protocol.Indexer.Chain.{
  Event, ExecutedTransaction, Checkpoint, is_deepbook_tx, try_extract_move_call_package,
}
use rain_protocol.Indexer.Event.Order.{OrderCanceled, OrderModified}
use rain_protocol.Indexer.Event.OrderInfo.{OrderPlaced, OrderExpired}
use rain_protocol.Schema.Row.Trading.{
  OrderUpdate, OrderUpdateStatus, placed, modified, canceled, expired,
}

pub record TransactionMetadata : Type 0 where
  pub sender : String
  pub checkpoint : ℕ
  pub checkpoint_timestamp_ms : ℕ
  pub digest : String
  pub package_id : String

-- `bcs::from_bytes` at the four event types.
pub record Decoders : Type 0 where
  pub order_placed : Bytes → Option OrderPlaced
  pub order_modified : Bytes → Option OrderModified
  pub order_canceled : Bytes → Option OrderCanceled
  pub order_expired : Bytes → Option OrderExpired

module _ (sdk : Sdk) where
  unfoldable pub process_order_placed : OrderPlaced → TransactionMetadata → ℕ → OrderUpdate
  process_order_placed order_placed meta event_index = record {
    event_digest = meta.digest <> show_ℕ event_index;
    digest = meta.digest;
    sender = meta.sender;
    checkpoint = as_i64 meta.checkpoint;
    checkpoint_timestamp_ms = as_i64 meta.checkpoint_timestamp_ms;
    package_id = meta.package_id;
    status = placed;
    pool_id = sdk.object_id_to_string order_placed.pool_id;
    order_id = show_ℕ order_placed.order_id;
    client_order_id = as_i64 order_placed.client_order_id;
    price = as_i64 order_placed.price;
    is_bid = order_placed.is_bid;
    original_quantity = as_i64 order_placed.placed_quantity;
    quantity = as_i64 order_placed.placed_quantity;
    filled_quantity = pos 0;
    onchain_timestamp = as_i64 order_placed.timestamp;
    trader = sdk.address_to_string order_placed.trader;
    balance_manager_id = sdk.object_id_to_string order_placed.balance_manager_id;
  }

  unfoldable pub process_order_modified : OrderModified → TransactionMetadata → ℕ → OrderUpdate
  process_order_modified order_modified meta event_index = record {
    event_digest = meta.digest <> show_ℕ event_index;
    digest = meta.digest;
    sender = meta.sender;
    checkpoint = as_i64 meta.checkpoint;
    checkpoint_timestamp_ms = as_i64 meta.checkpoint_timestamp_ms;
    package_id = meta.package_id;
    status = modified;
    pool_id = sdk.object_id_to_string order_modified.pool_id;
    order_id = show_ℕ order_modified.order_id;
    client_order_id = as_i64 order_modified.client_order_id;
    price = as_i64 order_modified.price;
    is_bid = order_modified.is_bid;
    original_quantity = as_i64 order_modified.previous_quantity;
    quantity = as_i64 order_modified.new_quantity;
    filled_quantity = as_i64 order_modified.filled_quantity;
    onchain_timestamp = as_i64 order_modified.timestamp;
    trader = sdk.address_to_string order_modified.trader;
    balance_manager_id = sdk.object_id_to_string order_modified.balance_manager_id;
  }

  unfoldable pub process_order_canceled : OrderCanceled → TransactionMetadata → ℕ → OrderUpdate
  process_order_canceled order_canceled meta event_index = record {
    event_digest = meta.digest <> show_ℕ event_index;
    digest = meta.digest;
    sender = meta.sender;
    checkpoint = as_i64 meta.checkpoint;
    checkpoint_timestamp_ms = as_i64 meta.checkpoint_timestamp_ms;
    package_id = meta.package_id;
    status = canceled;
    pool_id = sdk.object_id_to_string order_canceled.pool_id;
    order_id = show_ℕ order_canceled.order_id;
    client_order_id = as_i64 order_canceled.client_order_id;
    price = as_i64 order_canceled.price;
    is_bid = order_canceled.is_bid;
    original_quantity = as_i64 order_canceled.original_quantity;
    quantity = as_i64 order_canceled.base_asset_quantity_canceled;
    filled_quantity =
        as_i64
          (sub_u64 order_canceled.original_quantity order_canceled.base_asset_quantity_canceled);
    onchain_timestamp = as_i64 order_canceled.timestamp;
    trader = sdk.address_to_string order_canceled.trader;
    balance_manager_id = sdk.object_id_to_string order_canceled.balance_manager_id;
  }

  unfoldable pub process_order_expired : OrderExpired → TransactionMetadata → ℕ → OrderUpdate
  process_order_expired order_expired meta event_index = record {
    event_digest = meta.digest <> show_ℕ event_index;
    digest = meta.digest;
    sender = meta.sender;
    checkpoint = as_i64 meta.checkpoint;
    checkpoint_timestamp_ms = as_i64 meta.checkpoint_timestamp_ms;
    package_id = meta.package_id;
    status = expired;
    pool_id = sdk.object_id_to_string order_expired.pool_id;
    order_id = show_ℕ order_expired.order_id;
    client_order_id = as_i64 order_expired.client_order_id;
    price = as_i64 order_expired.price;
    is_bid = order_expired.is_bid;
    original_quantity = as_i64 order_expired.original_quantity;
    quantity = as_i64 order_expired.base_asset_quantity_canceled;
    filled_quantity =
        as_i64 (sub_u64 order_expired.original_quantity order_expired.base_asset_quantity_canceled);
    onchain_timestamp = as_i64 order_expired.timestamp;
    trader = sdk.address_to_string order_expired.trader;
    balance_manager_id = sdk.object_id_to_string order_expired.balance_manager_id;
  }

  abbrev pub metadata_of : Checkpoint → ExecutedTransaction → TransactionMetadata
  metadata_of checkpoint tx = record {
    sender = sdk.address_to_string tx.sender;
    checkpoint = checkpoint.sequence_number;
    checkpoint_timestamp_ms = checkpoint.timestamp_ms;
    digest = tx.digest;
    package_id = unwrap_or "" (try_extract_move_call_package sdk tx);
  }

  module _ (dec : Decoders) (env : DeepbookEnv) where
    abbrev pub is_type : String → String → Event → Bool
    is_type module_name name ev = matches_event_type sdk module_name name env ev.type_

    -- The body of the loop over events: `none` if the event is of none of the four types.
    unfoldable pub process_event :
        TransactionMetadata → ℕ → Event → Result (Option OrderUpdate) Error
    process_event meta index ev =
        if is_type "order_info" "OrderPlaced" ev
        then (do
          event ← ok_or decode_failed (dec.order_placed ev.contents)
          ok (some (process_order_placed event meta index)))
        else if is_type "order" "OrderModified" ev
        then (do
          event ← ok_or decode_failed (dec.order_modified ev.contents)
          ok (some (process_order_modified event meta index)))
        else if is_type "order" "OrderCanceled" ev
        then (do
          event ← ok_or decode_failed (dec.order_canceled ev.contents)
          ok (some (process_order_canceled event meta index)))
        else if is_type "order_info" "OrderExpired" ev
        then (do
          event ← ok_or decode_failed (dec.order_expired ev.contents)
          ok (some (process_order_expired event meta index)))
        else ok none

    abbrev pub push : List OrderUpdate → Option OrderUpdate → List OrderUpdate
    push results none = results
    push results (some row) = results ++ (row ∷ [])

    unfoldable pub process_events :
        TransactionMetadata → ℕ → List Event → List OrderUpdate → Result (List OrderUpdate) Error
    process_events meta index [] results = ok results
    process_events meta index (ev ∷ rest) results = do
      row ← process_event meta index ev
      process_events meta (index + 1) rest (push results row)

    abbrev pub process_body :
        Checkpoint
        → ExecutedTransaction
        → Bool
        → Option (List Event)
        → List OrderUpdate
        → Result (List OrderUpdate) Error
    process_body checkpoint tx false events results = ok results
    process_body checkpoint tx true none results = ok results
    process_body checkpoint tx true (some events) results =
        process_events (metadata_of checkpoint tx) 0 events results

    unfoldable pub process_txs :
        Checkpoint → List ExecutedTransaction → List OrderUpdate → Result (List OrderUpdate) Error
    process_txs checkpoint [] results = ok results
    process_txs checkpoint (tx ∷ rest) results = do
      relevant ← is_deepbook_tx sdk tx env
      results' ← process_body checkpoint tx relevant tx.events results
      process_txs checkpoint rest results'

    unfoldable pub process : Checkpoint → Result (List OrderUpdate) Error
    unfolding process_txs process_events process_event
    process checkpoint = process_txs checkpoint checkpoint.transactions []
