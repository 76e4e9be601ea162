-- ===== src/Indexer/OrderUpdate/Transactions.antt =====
-- The order updates of a whole checkpoint
-- (deepbookv3/crates/indexer/src/handlers/order_update_handler.rs).
use mathlib.Core.List.{append-nil}
use rain_protocol.Prelude.{
  Bool, true, false, List, [], ◌∷◌, ◌++◌, Option, none, some, ◌≡◌, refl, ◌∙◌,
}
use rain_protocol.Prelude.Result.{
  Result, ok, ◌>>=◌, traverse, bind_map, concat, with_parts, with_parts-cons,
}
use rain_protocol.Indexer.Sdk.{Bytes, Sdk}
use rain_protocol.Indexer.Config.{DeepbookEnv, Error, package_ids, package_addresses}
use rain_protocol.Indexer.Chain.{
  Event, ExecutedTransaction, Checkpoint, is_deepbook_tx, concerns_deepbook,
}
use rain_protocol.Indexer.Process.Spec.{enumerate}
use rain_protocol.Schema.Row.Trading.{OrderUpdate}
use rain_protocol.Indexer.OrderUpdate.{Decoders, metadata_of, process_body, process_txs, process}
use rain_protocol.Indexer.OrderUpdate.Laws.{step, keep_some, process_events-onto}

module _ (sdk : Sdk) (dec : Decoders) (env : DeepbookEnv) (addresses packages : List Bytes)
    (checkpoint : Checkpoint) where
  -- The rows of one transaction.
  abbrev pub tx_rows :
      ExecutedTransaction → Bool → Option (List Event) → Result (List OrderUpdate) Error
  tx_rows tx false events = ok []
  tx_rows tx true none = ok []
  tx_rows tx true (some events) = do
    rows ← traverse (step sdk dec env (metadata_of sdk checkpoint tx)) (enumerate 0 events)
    ok (keep_some sdk dec env (metadata_of sdk checkpoint tx) rows)

  abbrev pub order_rows : ExecutedTransaction → Result (List OrderUpdate) Error
  order_rows tx = tx_rows tx (concerns_deepbook addresses packages tx) tx.events

  process_body-eq :
      (tx : ExecutedTransaction) (relevant : Bool) (events : Option (List Event))
      (results : List OrderUpdate)
      → process_body sdk dec env checkpoint tx relevant events results
        ≡ (do rows ← tx_rows tx relevant events; ok (results ++ rows))
  process_body-eq tx false events results = rw append-nil refl
  process_body-eq tx true none results = rw append-nil refl
  process_body-eq tx true (some events) results =
      process_events-onto sdk dec env (metadata_of sdk checkpoint tx) 0 events results
      ∙ bind_map (traverse (step sdk dec env (metadata_of sdk checkpoint tx)) (enumerate 0 events))
          (keep_some sdk dec env (metadata_of sdk checkpoint tx)) (λ rows. ok (results ++ rows))

  process_txs-eq :
      package_addresses sdk env ≡ ok addresses
      → package_ids sdk env ≡ ok packages
      → (txs : List ExecutedTransaction) (results : List OrderUpdate)
      → process_txs sdk dec env checkpoint txs results
        ≡ with_parts results (traverse order_rows txs)
  unfolding process_txs traverse is_deepbook_tx
  process_txs-eq parsed ids [] results = rw append-nil refl
  process_txs-eq parsed ids (tx ∷ rest) results =
      rw
        (
          parsed,
          ids,
          process_body-eq tx (concerns_deepbook addresses packages tx) tx.events results,
        )
        (with_parts-cons results (order_rows tx) (traverse order_rows rest) _
          (process_txs-eq parsed ids rest))

-- If the package constants parse, the order updates of a checkpoint are those of its transactions in
-- order: none for a transaction that does not concern DeepBook or has no events, else the rows of its
-- events; the first failed decoding makes the whole checkpoint fail.
pub process-order_rows :
    (sdk : Sdk) (dec : Decoders) (env : DeepbookEnv) (addresses packages : List Bytes)
    (checkpoint : Checkpoint)
    → package_addresses sdk env ≡ ok addresses
    → package_ids sdk env ≡ ok packages
    → process sdk dec env checkpoint ≡ (do
      parts ←
          traverse (order_rows sdk dec env addresses packages checkpoint) checkpoint.transactions
      ok (concat parts))
unfolding process
process-order_rows sdk dec env addresses packages checkpoint parsed ids =
    process_txs-eq sdk dec env addresses packages checkpoint parsed ids checkpoint.transactions []
