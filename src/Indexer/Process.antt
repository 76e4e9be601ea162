-- ===== src/Indexer/Process.antt =====
-- `process` and `commit` of the handlers that `define_handler!` generates
-- (deepbookv3/crates/indexer/src/handlers/mod.rs).
pub mod Spec
pub mod Digests
pub mod Prefilter
use rain_protocol.Prelude.{
  ℕ, ◌+◌, String, Bool, true, false, List, [], ◌∷◌, ◌++◌, Option, none, some, map,
}
use rain_protocol.Prelude.Result.{Result, ok, err, ok_or, ◌>>=◌}
use rain_protocol.Indexer.Sdk.{Bytes, Sdk}
use rain_protocol.Indexer.Config.{DeepbookEnv, Error, decode_failed}
use rain_protocol.Indexer.MoveStruct.{matches_event_type}
use rain_protocol.Indexer.Chain.{
  Event, ExecutedTransaction, Checkpoint, EventMeta, with_index, from_checkpoint_tx, is_deepbook_tx,
}
use rain_protocol.Indexer.Handler.{Handler}

-- `from_bytes` is `bcs::from_bytes` at the handler's event type.
module _ {E R : Type 0} (sdk : Sdk) (h : Handler E R) (from_bytes : Bytes → Option E)
    (env : DeepbookEnv) where
  -- The loop over the events of one transaction, from the index of the first.
  unfoldable pub process_events : EventMeta → ℕ → List Event → List R → Result (List R) Error
  process_events base_meta index [] results = ok results
  process_events base_meta index (ev ∷ rest) results =
      elim (matches_event_type sdk h.module_name h.event_name env ev.type_) [
        | true ↦ do
          event ← ok_or decode_failed (from_bytes ev.contents)
          process_events base_meta (index + 1) rest
              (results ++ (h.map_event event (with_index base_meta index) ∷ []))
        | false ↦ process_events base_meta (index + 1) rest results
      ]

  -- The body of the loop over the transactions.
  abbrev process_body :
      Checkpoint → ExecutedTransaction → Bool → Option (List Event) → List R → Result (List R) Error
  process_body checkpoint tx false events results = ok results
  process_body checkpoint tx true none results = ok results
  process_body checkpoint tx true (some events) results =
      process_events (from_checkpoint_tx sdk checkpoint tx) 0 events results

  unfoldable pub process_txs :
      Checkpoint → List ExecutedTransaction → List R → Result (List R) Error
  process_txs checkpoint [] results = ok results
  process_txs checkpoint (tx ∷ rest) results = do
    relevant ← is_deepbook_tx sdk tx env
    results' ← process_body checkpoint tx relevant tx.events results
    process_txs checkpoint rest results'

  unfoldable pub process : Checkpoint → Result (List R) Error
  unfolding process_txs process_events
  process checkpoint = process_txs checkpoint checkpoint.transactions []
