-- ===== src/Indexer/Process/Spec.antt =====
-- `process` against a declarative description: select the events, then decode and map each.
use rain_protocol.Prelude.{
  ℕ, ◌+◌, Bool, true, false, List, [], ◌∷◌, ◌++◌, Option, none, some, map, keep, ◌≡◌, refl, sym,
  ◌∙◌, inl, inr, Bool-cases, Option-cases,
}
use mathlib.Core.List.{append-nil, append_assoc}
use rain_protocol.Prelude.Result.{Result, ok, err, ok_or, ◌>>=◌, traverse, traverse-append, bind-ok}
use rain_protocol.Indexer.Sdk.{Bytes, Sdk}
use rain_protocol.Indexer.Config.{DeepbookEnv, Error, decode_failed, package_ids, package_addresses}
use rain_protocol.Indexer.MoveStruct.{matches_event_type}
use rain_protocol.Indexer.Chain.{
  Event, ExecutedTransaction, Checkpoint, EventMeta, with_index, from_checkpoint_tx, is_deepbook_tx,
  concerns_deepbook,
}
use rain_protocol.Indexer.Handler.{Handler}
use rain_protocol.Indexer.Process.{process_events, process_body, process_txs, process}

-- `iter().enumerate()`, from an index.
abbrev pub enumerate : {A : Type 0} → ℕ → List A → List (ℕ × A)
enumerate i [] = []
enumerate i (x ∷ xs) = (i, x) ∷ enumerate (i + 1) xs

-- An event chosen for a handler: its metadata, and its bytes.
pub record Chosen : Type 0 where
  pub meta : EventMeta
  pub contents : Bytes

module _ {E R : Type 0} (sdk : Sdk) (h : Handler E R) (from_bytes : Bytes → Option E)
    (env : DeepbookEnv) where
  abbrev pub is_match : ℕ × Event → Bool
  is_match (i, ev) = matches_event_type sdk h.module_name h.event_name env ev.type_

  abbrev pub choose : EventMeta → ℕ × Event → Chosen
  choose base_meta (i, ev) = record { meta = with_index base_meta i; contents = ev.contents }

  abbrev pub chosen_from : EventMeta → ℕ → List Event → List Chosen
  chosen_from base_meta i events = map (choose base_meta) (keep is_match (enumerate i events))

  abbrev pub chosen_of : Checkpoint → ExecutedTransaction → Bool → Option (List Event) → List Chosen
  chosen_of checkpoint tx false events = []
  chosen_of checkpoint tx true none = []
  chosen_of checkpoint tx true (some events) =
      chosen_from (from_checkpoint_tx sdk checkpoint tx) 0 events

  abbrev pub chosen_in :
      List Bytes → List Bytes → Checkpoint → List ExecutedTransaction → List Chosen
  chosen_in addresses packages checkpoint [] = []
  chosen_in addresses packages checkpoint (tx ∷ rest) =
      chosen_of checkpoint tx (concerns_deepbook addresses packages tx) tx.events
      ++ chosen_in addresses packages checkpoint rest

  abbrev pub row_of : Chosen → Result R Error
  row_of c = do event ← ok_or decode_failed (from_bytes c.contents); ok (h.map_event event c.meta)

  abbrev pub onto : List R → Result (List R) Error → Result (List R) Error
  onto results m = do rows ← m; ok (results ++ rows)

  -- One more row in front of the rest.
  onto-cons :
      (results : List R) (r : R) (m : Result (List R) Error)
      → onto (results ++ (r ∷ [])) m ≡ onto results (do rows ← m; ok (r ∷ rows))
  onto-cons results r (ok rows) = rw append_assoc
  onto-cons results r (err e) = refl

  pub process_events-eq :
      (base_meta : EventMeta) (i : ℕ) (events : List Event) (results : List R)
      → process_events sdk h from_bytes env base_meta i events results
        ≡ onto results (traverse row_of (chosen_from base_meta i events))
  unfolding process_events traverse
  process_events-eq base_meta i [] results = rw append-nil refl
  process_events-eq base_meta i (ev ∷ rest) results = elim (Bool-cases (is_match (i, ev))) [
    | inl matched ↦ elim (Option-cases (from_bytes ev.contents)) [
      | inl failed ↦ rw (matched, failed, process_events) refl
      | inr (e, decoded) ↦
          rw (matched, decoded, process_events)
            (process_events-eq base_meta (i + 1) rest _ ∙ onto-cons results _ _)
    ]
    | inr other ↦ rw (other, process_events) (process_events-eq base_meta (i + 1) rest results)
  ]

  module _ (addresses packages : List Bytes) (parsed : package_addresses sdk env ≡ ok addresses)
      (parsed_ids : package_ids sdk env ≡ ok packages) where
    is_deepbook_tx-eq :
        (tx : ExecutedTransaction)
        → is_deepbook_tx sdk tx env ≡ ok (concerns_deepbook addresses packages tx)
    unfolding is_deepbook_tx
    is_deepbook_tx-eq tx = rw (parsed, parsed_ids)

    process_body-eq :
        (checkpoint : Checkpoint) (tx : ExecutedTransaction) (relevant : Bool)
        (events : Option (List Event)) (results : List R)
        → process_body sdk h from_bytes env checkpoint tx relevant events results
          ≡ onto results (traverse row_of (chosen_of checkpoint tx relevant events))
    unfolding traverse
    process_body-eq checkpoint tx false events results = rw append-nil
    process_body-eq checkpoint tx true none results = rw append-nil
    process_body-eq checkpoint tx true (some events) results = process_events-eq _ 0 events results

    -- Rows found so far, those of one transaction, and those that `k` adds.
    onto-then :
        (results : List R) (m n : Result (List R) Error) (k : List R → Result (List R) Error)
        → ((rows : List R) → k rows ≡ onto rows n)
        → (onto results m >>= k) ≡ onto results (do rs ← m; ss ← n; ok (rs ++ ss))
    onto-then results (ok rs) (ok ss) k adds = rw (adds (results ++ rs)) (rw append_assoc)
    onto-then results (ok rs) (err e) k adds = adds (results ++ rs)
    onto-then results (err e) n k adds = refl

    process_txs-eq :
        (checkpoint : Checkpoint) (txs : List ExecutedTransaction) (results : List R)
        → process_txs sdk h from_bytes env checkpoint txs results
          ≡ onto results (traverse row_of (chosen_in addresses packages checkpoint txs))
    unfolding process_txs traverse
    process_txs-eq checkpoint [] results = rw append-nil
    process_txs-eq checkpoint (tx ∷ rest) results =
        rw
          (is_deepbook_tx-eq tx, process_body-eq checkpoint tx _ tx.events results, traverse-append)
          (onto-then results _ _ _ (process_txs-eq checkpoint rest))

    -- If the package constants parse, `process` returns, in order, the row of every event that
    -- belongs to a DeepBook transaction and has the handler's type, indexed within its transaction;
    -- the first one that cannot be decoded makes the whole checkpoint fail.
    pub process_lem :
        (checkpoint : Checkpoint)
        → process sdk h from_bytes env checkpoint
          ≡ traverse row_of (chosen_in addresses packages checkpoint checkpoint.transactions)
    unfolding process
    process_lem checkpoint = process_txs-eq checkpoint checkpoint.transactions [] ∙ sym (bind-ok _)
