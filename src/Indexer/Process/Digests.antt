-- ===== src/Indexer/Process/Digests.antt =====
-- The event digests, which are the tables' primary keys, within one checkpoint.
use Prim.Native.String.{count}
use text.Mathlib.TextLemmas.{append_inj, append_cancel_left}
use rain_protocol.Prelude.{
  ℕ, ◌+◌, ◌≤◌, String, Bool, true, false, List, [], ◌∷◌, ◌<>◌, Option, none, some, map, ◌≡◌, ◌≢◌,
  refl, sym, ◌∙◌, inl, inr, Bool-cases, arith, All, All-append, All-weaken, Distinct,
  Distinct-append,
}
use mathlib.Core.List.{map-append}
use rain_protocol.Prelude.Decimal.{show_ℕ, show_ℕ-injective}
use rain_protocol.Prelude.Result.{ok, ok_or, >>=-eq-ok, ok-injective, traverse-map}
use rain_protocol.Indexer.Sdk.{Bytes, Sdk}
use rain_protocol.Indexer.Config.{DeepbookEnv, decode_failed, package_ids, package_addresses}
use rain_protocol.Indexer.Chain.{
  Event, ExecutedTransaction, Checkpoint, EventMeta, event_digest, with_index, from_checkpoint_tx,
  concerns_deepbook,
}
use rain_protocol.Indexer.Handler.{Handler}
use rain_protocol.Indexer.Process.{process}
use rain_protocol.Indexer.Process.Spec.{
  Chosen, is_match, chosen_from, chosen_of, chosen_in, row_of, process_lem,
}

-- The row of an event has the event's digest as its primary key.
abbrev pub IsKeyed : {E R : Type 0} → Handler E R → Type 0
IsKeyed {E} h = (event : E) (meta : EventMeta) → h.key (h.map_event event meta) ≡ event_digest meta

abbrev pub digest_of : Chosen → String
digest_of c = event_digest c.meta

-- A key made of the digest `d` and an index from `i` on.
abbrev IsFrom : String → ℕ → String → Type 0
IsFrom d i k = (j : ℕ) × (i ≤ j) × (k ≡ d <> show_ℕ j)

IsFrom-ne : (d : String) (i : ℕ) (k : String) → IsFrom d (i + 1) k → d <> show_ℕ i ≢ k
IsFrom-ne d i k (j, later, e) same =
    let index_same : i ≡ j = show_ℕ-injective i j (append_cancel_left d _ _ (same ∙ e)) in
    absurd (omega arith)

-- A key of another transaction, whose digest is as long and differs.
abbrev IsOther : String → String → Type 0
IsOther d k = (d' : String) × (j : ℕ) × (d ≢ d') × (count d ≡ count d') × (k ≡ d' <> show_ℕ j)

IsOther-ne : (d : String) (i : ℕ) (k l : String) → IsFrom d i k → IsOther d l → k ≢ l
IsOther-ne d i k l (j, _, e) (d', j', differ, long, e') same =
    differ (append_inj (sym e ∙ same ∙ e') long).0

-- A digest as long as those of `txs`, and different from them.
abbrev IsApart : String → List ExecutedTransaction → Type 0
IsApart d txs =
    All (λ (tx : ExecutedTransaction). (d ≢ tx.digest) × (count d ≡ count tx.digest)) txs

-- The digests of the transactions differ from one another and have one length.
abbrev pub HasSeparateDigests : List ExecutedTransaction → Type 0
HasSeparateDigests [] = Unit
HasSeparateDigests (tx ∷ rest) = IsApart tx.digest rest × HasSeparateDigests rest

module _ {E R : Type 0} (sdk : Sdk) (h : Handler E R) (from_bytes : Bytes → Option E)
    (env : DeepbookEnv) where
  chosen_from-IsFrom :
      (base_meta : EventMeta) (i : ℕ) (events : List Event)
      → All
          (IsFrom base_meta.digest i)
          (map digest_of (chosen_from sdk h from_bytes env base_meta i events))
  unfolding event_digest with_index
  chosen_from-IsFrom base_meta i [] = tt
  chosen_from-IsFrom base_meta i (ev ∷ rest) =
      let later =
        All-weaken (IsFrom base_meta.digest i) _ (λ k (j, le, e). (j, omega arith, e))
          (chosen_from-IsFrom base_meta (i + 1) rest) in
      elim (Bool-cases (is_match sdk h from_bytes env (i, ev))) [
        | inl matched ↦ rw matched ((i, omega arith, refl), later)
        | inr other ↦ rw other later
      ]

  chosen_from-Distinct :
      (base_meta : EventMeta) (i : ℕ) (events : List Event)
      → Distinct (map digest_of (chosen_from sdk h from_bytes env base_meta i events))
  unfolding event_digest with_index
  chosen_from-Distinct base_meta i [] = tt
  chosen_from-Distinct base_meta i (ev ∷ rest) =
      elim (Bool-cases (is_match sdk h from_bytes env (i, ev))) [
        | inl matched ↦ rw matched (
          All-weaken _ _ (IsFrom-ne base_meta.digest i) (chosen_from-IsFrom base_meta (i + 1) rest),
          chosen_from-Distinct base_meta (i + 1) rest,
        )
        | inr other ↦ rw other (chosen_from-Distinct base_meta (i + 1) rest)
      ]

  module _ (addresses packages : List Bytes) (checkpoint : Checkpoint) where
    abbrev keys_of : ExecutedTransaction → Bool → Option (List Event) → List String
    keys_of tx relevant events =
        map digest_of (chosen_of sdk h from_bytes env checkpoint tx relevant events)

    abbrev keys_in : List ExecutedTransaction → List String
    keys_in txs = map digest_of (chosen_in sdk h from_bytes env addresses packages checkpoint txs)

    keys_of-IsFrom :
        (tx : ExecutedTransaction) (relevant : Bool) (events : Option (List Event))
        → All (IsFrom tx.digest 0) (keys_of tx relevant events)
    unfolding from_checkpoint_tx
    keys_of-IsFrom tx false events = tt
    keys_of-IsFrom tx true none = tt
    keys_of-IsFrom tx true (some events) =
        chosen_from-IsFrom (from_checkpoint_tx sdk checkpoint tx) 0 events

    keys_of-Distinct :
        (tx : ExecutedTransaction) (relevant : Bool) (events : Option (List Event))
        → Distinct (keys_of tx relevant events)
    keys_of-Distinct tx false events = tt
    keys_of-Distinct tx true none = tt
    keys_of-Distinct tx true (some events) =
        chosen_from-Distinct (from_checkpoint_tx sdk checkpoint tx) 0 events

    keys_in-IsOther :
        (d : String) (txs : List ExecutedTransaction)
        → IsApart d txs
        → All (IsOther d) (keys_in txs)
    keys_in-IsOther d [] apart = tt
    keys_in-IsOther d (tx ∷ rest) ((differ, long), apart) =
        let relevant = concerns_deepbook addresses packages tx in
        rw (map-append) (
          All-append (IsOther d) (keys_of tx relevant tx.events) (keys_in rest)
            (All-weaken (IsOther d) _ (λ k (j, _, e). (tx.digest, j, differ, long, e))
              (keys_of-IsFrom tx relevant tx.events))
            (keys_in-IsOther d rest apart))

    keys_in-Distinct :
        (txs : List ExecutedTransaction) → HasSeparateDigests txs → Distinct (keys_in txs)
    keys_in-Distinct [] separate = tt
    keys_in-Distinct (tx ∷ rest) (apart, separate) =
        let relevant = concerns_deepbook addresses packages tx in
        rw map-append (
          Distinct-append (keys_of tx relevant tx.events) (keys_in rest)
            (keys_of-Distinct tx relevant tx.events) (keys_in-Distinct rest separate)
            (All-weaken _ _
              (λ k from.
                All-weaken _ _ (λ l other. IsOther-ne tx.digest 0 k l from other)
                  (keys_in-IsOther tx.digest rest apart))
              (keys_of-IsFrom tx relevant tx.events)))

  row_of-key :
      IsKeyed h
      → (c : Chosen) (row : R) → row_of sdk h from_bytes env c ≡ ok row
      → h.key row ≡ digest_of c
  row_of-key keyed c row e =
      let (event, _, mapped) = >>=-eq-ok (ok_or decode_failed (from_bytes c.contents)) _ e in
      rw (← ok-injective mapped) (keyed event c.meta)

  -- If the package constants parse, the handler keys its rows by event digest, and the digests of
  -- the checkpoint's transactions differ and have one length, then the rows that `process` returns
  -- have pairwise different primary keys.
  pub process-keys-Distinct :
      (addresses packages : List Bytes)
      → package_addresses sdk env ≡ ok addresses
      → package_ids sdk env ≡ ok packages
      → IsKeyed h
      → (checkpoint : Checkpoint) → HasSeparateDigests checkpoint.transactions
      → (rows : List R) → process sdk h from_bytes env checkpoint ≡ ok rows
      → Distinct (map h.key rows)
  process-keys-Distinct addresses packages parsed parsed_ids keyed checkpoint separate rows done =
      let spec = process_lem sdk h from_bytes env addresses packages parsed parsed_ids checkpoint in
      rw
        (traverse-map (row_of sdk h from_bytes env) h.key digest_of _ rows (row_of-key keyed)
          (sym spec ∙ done))
        (keys_in-Distinct addresses packages checkpoint checkpoint.transactions separate)
