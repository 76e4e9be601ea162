-- ===== src/Tests/Transactions.antt =====
-- The two handlers that are written out, at a checkpoint with two transactions.
use rain_protocol.Prelude.{String, [], ◌∷◌, Option, none, some, ◌≡◌}
use rain_protocol.Prelude.Result.{ok, ◌>>=◌, traverse, concat}
use rain_protocol.Indexer.Sdk.{Bytes}
use rain_protocol.Indexer.Config.{mainnet}
use rain_protocol.Indexer.Chain.{ExecutedTransaction, Checkpoint}
use rain_protocol.Indexer.Event.Governance.{TradeParamsUpdateEvent}
use rain_protocol.Indexer.OrderUpdate
use rain_protocol.Indexer.TradeParams
use rain_protocol.Indexer.OrderUpdate.Transactions.{order_rows, process-order_rows}
use rain_protocol.Indexer.TradeParams.Transactions.{
  IsPoolOf, trade_params_rows, process-trade_params_rows,
}
use rain_protocol.Tests.Sdk.{test_sdk, tx_of, event_of}
use rain_protocol.Tests.Indexer.{addresses, parsed, parsed_ids}
use rain_protocol.Tests.Orders.{decoders}

abbrev orders : Checkpoint
orders = record {
  sequence_number = 13;
  timestamp_ms = 1700000001000;
  transactions =
      tx_of "Da" (
        event_of "order_info" "OrderPlaced" 1
        ∷ event_of "governance" "TradeParamsUpdateEvent" 4
        ∷ [])
      ∷ tx_of "Db" (event_of "order" "OrderCanceled" 2 ∷ [])
      ∷ [];
}

process-order_rows_example : OrderUpdate.process test_sdk decoders mainnet orders ≡ (do
  parts ←
      traverse (order_rows test_sdk decoders mainnet addresses addresses orders) orders.transactions
  ok (concat parts))
process-order_rows_example =
    process-order_rows test_sdk decoders mainnet addresses addresses orders parsed parsed_ids

abbrev params_from_bytes : Bytes → Option TradeParamsUpdateEvent
params_from_bytes [] = none
params_from_bytes (b ∷ rest) = some (record { taker_fee = b; maker_fee = b; stake_required = 0 })

process-trade_params_rows_example :
    (pool_of : ExecutedTransaction → String) × ((tx : ExecutedTransaction)
      → IsPoolOf test_sdk addresses tx (pool_of tx))
    × (TradeParams.process test_sdk params_from_bytes mainnet orders ≡ (do
      parts ←
          traverse
            (trade_params_rows test_sdk params_from_bytes mainnet addresses addresses orders
              pool_of)
            orders.transactions
      ok (concat parts)))
process-trade_params_rows_example =
    process-trade_params_rows test_sdk params_from_bytes mainnet addresses addresses orders parsed
      parsed_ids
