-- ===== src/Indexer/TradeParams/Transactions.antt =====
-- The trade parameter updates of a whole checkpoint
-- (deepbookv3/crates/indexer/src/handlers/trade_params_update_handler.rs).
use mathlib.Core.List.{append-nil}
use rain_protocol.Prelude.{
  String, Bool, true, false, List, [], ◌∷◌, ◌++◌, Option, none, some, All, find, ◌≡◌, refl, ap, ◌⊎◌,
  inl, inr, eq_iff, Bool-cases, Option-cases, &&-eq-true, arith,
}
use rain_protocol.Prelude.Words.{as_i64}
use rain_protocol.Prelude.Result.{
  Result, ok, ◌>>=◌, ok_or, traverse, concat, with_parts, with_parts-cons,
}
use rain_protocol.Indexer.Sdk.{Bytes, Sdk}
use rain_protocol.Indexer.MoveStruct.{StructTag}
use rain_protocol.Indexer.Config.{DeepbookEnv, Error, decode_failed, package_ids, package_addresses}
use rain_protocol.Indexer.Chain.{
  Event, Object, EventMeta, event_digest, ExecutedTransaction, Checkpoint, is_deepbook_tx,
  concerns_deepbook, among,
}
use rain_protocol.Indexer.Process.Spec.{chosen_of, process_events-eq}
use rain_protocol.Indexer.Event.Governance.{TradeParamsUpdateEvent}
use rain_protocol.Schema.Row.Governance.{TradeParamsUpdate}
use rain_protocol.Indexer.TradeParams.{
  is_pool, id_or_zero, pool_id_of, trade_params_update_handler, process_body, process_txs, process,
}

module _ (sdk : Sdk) (addresses : List Bytes) where
  -- An object of the type `Pool` in a DeepBook package.
  abbrev pub IsDeepbookPool : Object → Type 0
  IsDeepbookPool obj =
      (t : StructTag) × (obj.type_ ≡ some t)
      × (among addresses t.address ≡ true)
      × (t.name ≡ "Pool")

  -- The id of the first input object of a transaction that is a pool, or "0x0" if none is.
  abbrev pub IsPoolOf : ExecutedTransaction → String → Type 0
  IsPoolOf tx id =
      ((before : List Object) × (obj : Object) × (after : List Object) × (tx.input_objects
          ≡ before ++ (obj ∷ after))
        × All (λ o. ¬ IsDeepbookPool o) before
        × IsDeepbookPool obj
        × (id ≡ sdk.object_id_to_hex_uncompressed obj.id))
      ⊎ (All (λ o. ¬ IsDeepbookPool o) tx.input_objects × (id ≡ "0x0"))

  is_pool-IsDeepbookPool : (obj : Object) → is_pool addresses obj ≡ true → IsDeepbookPool obj
  is_pool-IsDeepbookPool obj h = elim (Option-cases obj.type_) [
    | inl e ↦ absurd (ground (arith, e, h))
    | inr (t, e) ↦
        let (here, named) = &&-eq-true _ _ (rw (e, is_pool) at h) in
        (t, e, here, (eq_iff t.name "Pool").0 named)
  ]

  is_pool_not : (obj : Object) → is_pool addresses obj ≡ false → ¬ IsDeepbookPool obj
  is_pool_not obj h (t, e, here, named) =
      absurd (ground (arith, (eq_iff t.name "Pool").1 named, rw (e, is_pool) at h))

  id_or_zero-find :
      (objects : List Object)
      → let id = id_or_zero sdk (find (is_pool addresses) objects) in
        ((before : List Object) × (obj : Object) × (after : List Object) × (objects
            ≡ before ++ (obj ∷ after))
          × All (λ o. ¬ IsDeepbookPool o) before
          × IsDeepbookPool obj
          × (id ≡ sdk.object_id_to_hex_uncompressed obj.id))
        ⊎ (All (λ o. ¬ IsDeepbookPool o) objects × (id ≡ "0x0"))
  id_or_zero-find [] = inr (tt, refl)
  id_or_zero-find (obj ∷ rest) = elim (Bool-cases (is_pool addresses obj)) [
    | inl e ↦ inl ([], obj, rest, refl, tt, is_pool-IsDeepbookPool obj e, rw (e, find) refl)
    | inr e ↦ elim (id_or_zero-find rest) [
      | inl (before, o, after, split, others, pool, id) ↦ inl (
        obj ∷ before,
        o,
        after,
        ap (λ os. obj ∷ os) split,
        (is_pool_not obj e, others),
        pool,
        rw (e, find) id,
      )
      | inr (others, id) ↦ inr ((is_pool_not obj e, others), rw (e, find) id)
    ]
  ]

  pool_id_of-IsPoolOf : (tx : ExecutedTransaction) → IsPoolOf tx (pool_id_of sdk addresses tx)
  unfolding pool_id_of
  pool_id_of-IsPoolOf tx = id_or_zero-find tx.input_objects

-- The row of an event, in which the pool is `pool_id`.
abbrev pub row_for : String → TradeParamsUpdateEvent → EventMeta → TradeParamsUpdate
row_for pool_id event meta = record {
  event_digest = event_digest meta;
  digest = meta.digest;
  sender = meta.sender;
  checkpoint = meta.checkpoint;
  checkpoint_timestamp_ms = meta.checkpoint_timestamp_ms;
  package_id = meta.package_id;
  pool_id = pool_id;
  taker_fee = as_i64 event.taker_fee;
  maker_fee = as_i64 event.maker_fee;
  stake_required = as_i64 event.stake_required;
}

module _ (sdk : Sdk) (from_bytes : Bytes → Option TradeParamsUpdateEvent) (env : DeepbookEnv)
    (addresses packages : List Bytes) (checkpoint : Checkpoint) where
  abbrev pub tx_rows :
      String
      → ExecutedTransaction
      → Bool
      → Option (List Event)
      → Result (List TradeParamsUpdate) Error
  tx_rows pool_id tx relevant events =
      traverse
        (λ c. do
          event ← ok_or decode_failed (from_bytes c.contents)
          ok (row_for pool_id event c.meta))
        (chosen_of sdk (trade_params_update_handler sdk pool_id) from_bytes env checkpoint tx
          relevant events)

  -- The rows of one transaction, with its one pool.
  abbrev pub trade_params_rows :
      (ExecutedTransaction → String) → ExecutedTransaction → Result (List TradeParamsUpdate) Error
  trade_params_rows pool_of tx =
      tx_rows (pool_of tx) tx (concerns_deepbook addresses packages tx) tx.events

  process_body-eq :
      package_addresses sdk env ≡ ok addresses
      → (tx : ExecutedTransaction) (relevant : Bool) (events : Option (List Event))
        (results : List TradeParamsUpdate)
      → process_body sdk from_bytes env checkpoint tx relevant events results
        ≡ (do rows ← tx_rows (pool_id_of sdk addresses tx) tx relevant events; ok (results ++ rows))
  unfolding traverse trade_params_update_handler
  process_body-eq parsed tx false events results = rw append-nil refl
  process_body-eq parsed tx true none results = rw append-nil refl
  process_body-eq parsed tx true (some events) results = rw parsed (
      process_events-eq sdk (trade_params_update_handler sdk (pool_id_of sdk addresses tx))
        from_bytes env _ 0 events results)

  process_txs-eq :
      package_addresses sdk env ≡ ok addresses
      → package_ids sdk env ≡ ok packages
      → (txs : List ExecutedTransaction) (results : List TradeParamsUpdate)
      → process_txs sdk from_bytes env checkpoint txs results
        ≡ with_parts results (traverse (trade_params_rows (pool_id_of sdk addresses)) txs)
  unfolding process_txs traverse is_deepbook_tx
  process_txs-eq parsed ids [] results = rw append-nil refl
  process_txs-eq parsed ids (tx ∷ rest) results =
      rw
        (
          parsed,
          ids,
          process_body-eq parsed tx (concerns_deepbook addresses packages tx) tx.events results,
        )
        (with_parts-cons results (trade_params_rows (pool_id_of sdk addresses) tx)
          (traverse (trade_params_rows (pool_id_of sdk addresses)) rest) _
          (process_txs-eq parsed ids rest))

-- If the package constants parse, the trade parameter updates of a checkpoint are those of its
-- transactions in order: of each that concerns DeepBook, the events of the handler's type, each as the
-- row that has the fees and the stake of the event and, as its pool, the id of the first of the
-- transaction's input objects that is a `Pool` of a DeepBook package, or "0x0" if none is. The first
-- failed decoding makes the checkpoint fail.
pub process-trade_params_rows :
    (sdk : Sdk) (from_bytes : Bytes → Option TradeParamsUpdateEvent) (env : DeepbookEnv)
    (addresses packages : List Bytes) (checkpoint : Checkpoint)
    → package_addresses sdk env ≡ ok addresses
    → package_ids sdk env ≡ ok packages
    → (pool_of : ExecutedTransaction → String) × ((tx : ExecutedTransaction)
        → IsPoolOf sdk addresses tx (pool_of tx))
      × (process sdk from_bytes env checkpoint ≡ (do
        parts ←
            traverse
              (trade_params_rows sdk from_bytes env addresses packages checkpoint pool_of)
              checkpoint.transactions
        ok (concat parts)))
unfolding process
process-trade_params_rows sdk from_bytes env addresses packages checkpoint parsed ids = (
  pool_id_of sdk addresses,
  pool_id_of-IsPoolOf sdk addresses,
  process_txs-eq sdk from_bytes env addresses packages checkpoint parsed ids checkpoint.transactions
      [],
)
