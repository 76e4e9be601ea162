-- ===== src/Server/Poller/Laws.antt =====
-- What the poller measures and counts (deepbookv3/crates/server/src/margin_metrics/poller.rs).
use mathlib.Core.List.{append-nil, append_assoc}
use rain_protocol.Prelude.{
  length, keep, not, Bool, true, false, Bool-cases, if◌then◌else◌, ℕ, zero, suc, ◌+◌, ◌<◌, String,
  List, [], ◌∷◌, ◌++◌, map, filter_map, Option, none, some, ◌≡◌, refl, sym, ap, ◌∙◌, arith, inl,
  inr,
}
use rain_protocol.Prelude.Int.{ℤ}
use rain_protocol.Prelude.Result.{Result, ok, err, Result-cases, concat}
use rain_protocol.Server.Poller.{
  MarginPoolInfo, MarginPoolState, Quotient, NewMarginPoolSnapshot, quotient_if, or_nothing,
  snapshot_of, Metrics, Poll, Turn, cancelled, slept, poll_pools, poll_with, poll_once, counted,
  run,
}

module _ {A B : Type 0} where
  filter_map-none :
      (f : A → Option B) (x : A) (xs : List A)
      → f x ≡ none
      → filter_map f (x ∷ xs) ≡ filter_map f xs
  filter_map-none f x xs e =
      ap (λ (o : Option B). elim o [ none ↦ filter_map f xs | some y ↦ y ∷ filter_map f xs ]) e

  filter_map-some :
      (f : A → Option B) (x : A) (xs : List A) (y : B)
      → f x ≡ some y
      → filter_map f (x ∷ xs) ≡ y ∷ filter_map f xs
  filter_map-some f x xs y e =
      ap (λ (o : Option B). elim o [ none ↦ filter_map f xs | some z ↦ z ∷ filter_map f xs ]) e

-- A quotient with a divisor.
abbrev pub IsDefined : Option Quotient → Type 0
IsDefined none = Unit
IsDefined (some q) = 0 < q.divisor

quotient_if-IsDefined : (a b : ℕ) → IsDefined (quotient_if a b)
quotient_if-IsDefined a zero = tt
quotient_if-IsDefined a (suc b) = ground arith

or_nothing-IsDefined : (o : Option Quotient) → IsDefined o → 0 < (or_nothing o).divisor
or_nothing-IsDefined none h = omega arith
or_nothing-IsDefined (some q) h = h

-- No ratio of a snapshot divides by zero.
pub snapshot_of-IsDefined :
    (state : MarginPoolState)
    → (0 < (snapshot_of state).utilization_rate.divisor)
      × IsDefined (snapshot_of state).solvency_ratio
      × IsDefined (snapshot_of state).available_liquidity_pct
unfolding snapshot_of
snapshot_of-IsDefined state = (
  or_nothing-IsDefined _ (quotient_if-IsDefined state.total_borrow state.total_supply),
  quotient_if-IsDefined state.vault_balance state.total_borrow,
  quotient_if-IsDefined state.vault_balance state.total_supply,
)

-- The update that a pool whose query succeeds causes.
abbrev pub update_of :
    (String → String → Result MarginPoolState String)
    → MarginPoolInfo
    → Option (MarginPoolState × ℤ)
update_of get_pool_state p = elim (get_pool_state p.pool_id p.asset_type) [
  | ok state ↦ some (state, p.decimals)
  | err e ↦ none
]

module _ {S : Type 0} where
  -- One round updates the metrics of every pool whose query succeeds, in order and with the pool's
  -- decimals: neither a failed query nor a failed insertion affects another pool. It does not count.
  pub poll_pools-updates :
      (get_pool_state : String → String → Result MarginPoolState String)
      (save : NewMarginPoolSnapshot → S → Result S String) (pools : List MarginPoolInfo)
      (m : Metrics S)
      → let m' = poll_pools get_pool_state save pools m in
        (m'.updates ≡ m.updates ++ filter_map (update_of get_pool_state) pools)
        × (m'.poll_success ≡ m.poll_success)
        × (m'.poll_errors ≡ m.poll_errors)
  unfolding poll_pools
  poll_pools-updates get_pool_state save [] m = (rw append-nil refl, refl, refl)
  poll_pools-updates get_pool_state save (p ∷ pools) m =
      elim (Result-cases (get_pool_state p.pool_id p.asset_type)) [
        | inl (state, e) ↦
            let (updates, success, errors) = poll_pools-updates get_pool_state save pools _ in
            let one =
              filter_map-some (update_of get_pool_state) p pools (state, p.decimals)
                (rw (e, update_of) refl) in
            rw (e, poll_pools)
              (
                updates ∙ append_assoc m.updates _ _ ∙ ap (λ us. m.updates ++ us) (sym one),
                success,
                errors,
              )
        | inr (why, e) ↦
            let (updates, success, errors) = poll_pools-updates get_pool_state save pools m in
            let no_one =
              filter_map-none (update_of get_pool_state) p pools (rw (e, update_of) refl) in
            rw (e, poll_pools) (updates ∙ ap (λ us. m.updates ++ us) (sym no_one), success, errors)
      ]

  -- The polls before the first cancellation.
  abbrev pub polls : List (Turn S) → List (Poll S)
  polls [] = []
  polls (cancelled ∷ rest) = []
  polls (slept poll ∷ rest) = poll ∷ polls rest

  -- A poll succeeds if its pools can be read, and the client can be made or there is no pool.
  abbrev pub succeeds : Poll S → Bool
  succeeds poll = elim poll.margin_pools [
    | err e ↦ false
    | ok pools ↦ elim pools [
      | [] ↦ true
      | p ∷ rest ↦ elim poll.rpc_client [ ok get_pool_state ↦ true | err e ↦ false ]
    ]
  ]

  -- The updates of a poll: those of its pools, if it has a client.
  abbrev pub updates_of : Poll S → List (MarginPoolState × ℤ)
  updates_of poll = elim poll.margin_pools [
    | err e ↦ []
    | ok pools ↦ elim poll.rpc_client [
      | err e ↦ []
      | ok get_pool_state ↦ filter_map (update_of get_pool_state) pools
    ]
  ]

  abbrev pub Counts : Poll S → Metrics S → Metrics S → Type 0
  Counts poll m m' =
      (m'.updates ≡ m.updates ++ updates_of poll)
      × (m'.poll_success ≡ (if succeeds poll then m.poll_success + 1 else m.poll_success))
      × (m'.poll_errors ≡ (if succeeds poll then m.poll_errors else m.poll_errors + 1))

  poll_with-Counts :
      (pools : Result (List MarginPoolInfo) String)
      (client : Result (String → String → Result MarginPoolState String) String)
      (save : NewMarginPoolSnapshot → S → Result S String) (m : Metrics S)
      → let (result, m') = poll_with pools client save m in
        Counts
          (record { margin_pools = pools; rpc_client = client; save = save })
          m
          (counted result m')
  unfolding poll_with
  poll_with-Counts (err e) client save m = (sym (append-nil m.updates), refl, refl)
  poll_with-Counts (ok []) (err e) save m = (sym (append-nil m.updates), refl, refl)
  poll_with-Counts (ok []) (ok get_pool_state) save m = (sym (append-nil m.updates), refl, refl)
  poll_with-Counts (ok (p ∷ pools)) (err e) save m = (sym (append-nil m.updates), refl, refl)
  poll_with-Counts (ok (p ∷ pools)) (ok get_pool_state) save m =
      let (updates, success, errors) = poll_pools-updates get_pool_state save (p ∷ pools) m in
      (updates, ap (λ n. n + 1) success, errors)

  poll_once-Counts :
      (poll : Poll S) (m : Metrics S)
      → let (result, m') = poll_once poll m in Counts poll m (counted result m')
  unfolding poll_once
  poll_once-Counts poll m = poll_with-Counts poll.margin_pools poll.rpc_client poll.save m

  -- Each poll before the first cancellation is counted once, as a success if its pools were read and
  -- the client was made or there was no pool, and else as an error; it appends its updates. What stands
  -- behind the cancellation changes nothing, neither the counters and the updates nor the database.
  pub run-counts :
      (turns : List (Turn S)) (m : Metrics S)
      → let before = polls turns in
        let m' = run turns m in
        (m'.poll_success ≡ m.poll_success + length (keep succeeds before))
        × (m'.poll_errors ≡ m.poll_errors + length (keep (λ poll. not (succeeds poll)) before))
        × (m'.updates ≡ m.updates ++ concat (map updates_of before))
        × (m' ≡ run (map slept before) m)
  unfolding run
  run-counts [] m = (omega arith, omega arith, sym (append-nil m.updates), refl)
  run-counts (cancelled ∷ rest) m = (omega arith, omega arith, sym (append-nil m.updates), refl)
  run-counts (slept poll ∷ rest) m =
      let (result, m') = poll_once poll m in
      let (updates, success, errors) = poll_once-Counts poll m in
      let (success', errors', updates', same) = run-counts rest (counted result m') in
      (
        elim (Bool-cases (succeeds poll)) [
          | inl e ↦ rw e (omega (arith, success', rw e at success))
          | inr e ↦ rw e (omega (arith, success', rw e at success))
        ],
        elim (Bool-cases (succeeds poll)) [
          | inl e ↦ rw e (omega (arith, errors', rw e at errors))
          | inr e ↦ rw e (omega (arith, errors', rw e at errors))
        ],
        updates'
            ∙ ap (λ us. us ++ concat (map updates_of (polls rest))) updates
            ∙ append_assoc m.updates (updates_of poll) (concat (map updates_of (polls rest))),
        same,
      )
