-- ===== src/Tests/Orders.antt =====
-- The order updates and the primary keys at concrete events.
use rain_protocol.Prelude.{true, false, [], ◌∷◌, none, some, ◌≡◌, arith}
use rain_protocol.Prelude.Int.{◌+ℤ◌}
use rain_protocol.Prelude.Words.{as_u64}
use rain_protocol.Indexer.Event.Order.{OrderCanceled}
use rain_protocol.Indexer.Event.OrderInfo.{OrderPlaced, OrderExpired}
use rain_protocol.Indexer.OrderUpdate.{
  TransactionMetadata, Decoders, process_order_placed, process_order_canceled,
  process_order_expired,
}
use rain_protocol.Indexer.OrderUpdate.Laws.{quantities_add_up, placed_round_trip}
use rain_protocol.Tests.Sdk.{test_sdk}

abbrev meta : TransactionMetadata
meta = record {
  sender = "7.";
  checkpoint = 12;
  checkpoint_timestamp_ms = 1700000000000;
  digest = "Da";
  package_id = "";
}

abbrev order_placed : OrderPlaced
order_placed = record {
  balance_manager_id = 1 ∷ [];
  pool_id = 2 ∷ [];
  order_id = 18446744073709551617;
  client_order_id = 18446744073709551615;
  trader = 7 ∷ [];
  price = 3000000;
  is_bid = true;
  placed_quantity = 500;
  expire_timestamp = 0;
  timestamp = 1700000000000;
}

abbrev order_canceled : OrderCanceled
order_canceled = record {
  balance_manager_id = 1 ∷ [];
  pool_id = 2 ∷ [];
  order_id = 9;
  client_order_id = 4;
  trader = 7 ∷ [];
  price = 3000000;
  is_bid = true;
  original_quantity = 500;
  base_asset_quantity_canceled = 120;
  timestamp = 1700000000000;
}

abbrev order_expired : OrderExpired
order_expired = record {
  balance_manager_id = 1 ∷ [];
  pool_id = 2 ∷ [];
  order_id = 9;
  client_order_id = 4;
  trader = 7 ∷ [];
  price = 3000000;
  is_bid = false;
  original_quantity = 70;
  base_asset_quantity_canceled = 70;
  timestamp = 1700000000000;
}

quantities_add_up_example :
    let crow = process_order_canceled test_sdk order_canceled meta 3 in
    let xrow = process_order_expired test_sdk order_expired meta 3 in
    (crow.quantity +ℤ crow.filled_quantity ≡ crow.original_quantity)
    × (xrow.quantity +ℤ xrow.filled_quantity ≡ xrow.original_quantity)
quantities_add_up_example =
    quantities_add_up test_sdk meta 3 order_canceled order_expired (omega arith) (omega arith)
      (omega arith) (omega arith)

placed_round_trip_example :
    let row = process_order_placed test_sdk order_placed meta 0 in
    (as_u64 row.client_order_id ≡ 18446744073709551615)
    × (as_u64 row.price ≡ 3000000)
    × (as_u64 row.original_quantity ≡ 500)
    × (as_u64 row.quantity ≡ 500)
    × (as_u64 row.onchain_timestamp ≡ 1700000000000)
placed_round_trip_example =
    placed_round_trip test_sdk meta 0 order_placed (omega arith) (omega arith) (omega arith)
      (omega arith)

abbrev pub decoders : Decoders
decoders = record {
  order_placed = λ bytes. some order_placed;
  order_modified = λ bytes. none;
  order_canceled = λ bytes. some order_canceled;
  order_expired = λ bytes. some order_expired;
}
