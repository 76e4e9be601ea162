-- ===== src/Server/Writer/Laws.antt =====
-- What the admin's changes leave behind (deepbookv3/crates/server/src/writer.rs).
use rain_protocol.Prelude.{
  ℕ, zero, suc, String, ◌<>◌, Bool, true, false, not, List, [], ◌∷◌, map, any, keep, length,
  if◌then◌else◌, unwrap_or, ◌≡◌, refl, sym, ◌∙◌, arith, Bool-cases, inl, inr, ◌⊎◌,
}
use rain_protocol.Prelude.Result.{Result, ok, err, Result-cases}
use rain_protocol.Schema.Row.Api.{Pools}
use rain_protocol.Server.Error.{DeepBookError, not_found, database}
use rain_protocol.Server.Writer.{
  Database, Statement, UpdatePoolRequest, PoolChangeset, has_id, has_type, changed, to_changeset,
  update_pools, delete_pools, delete_assets, run_statement, found_or, update_pool, delete_pool,
  delete_asset,
}

module _ {A : Type 0} (p : A → Bool) where
  none_kept : (xs : List A) → length (keep p xs) ≡ 0 → any p xs ≡ false
  none_kept [] h = refl
  none_kept (x ∷ xs) h = ground (arith, none_kept xs)

  some_kept : (xs : List A) (n : ℕ) → length (keep p xs) ≡ suc n → any p xs ≡ true
  some_kept [] n h = absurd (omega arith)
  some_kept (x ∷ xs) n h = elim (Bool-cases (p x)) [
    | inl e ↦ rw e
    | inr e ↦ rw e (some_kept xs n (simp e at h))
  ]

  keep_all : (xs : List A) → any p xs ≡ false → keep (λ x. not (p x)) xs ≡ xs
  keep_all [] h = refl
  keep_all (x ∷ xs) h = ground (arith, keep_all xs)

  found_or-ok :
      (what : String) (xs : List A) (n : ℕ)
      → n ≡ length (keep p xs)
      → found_or what n ≡ ok tt
      → any p xs ≡ true
  found_or-ok what xs zero e h = cc
  found_or-ok what xs (suc n) e h = some_kept xs n (sym e)

  found_or-err :
      (what : String) (xs : List A) (n : ℕ) {e : DeepBookError}
      → n ≡ length (keep p xs)
      → found_or what n ≡ err e
      → any p xs ≡ false
  found_or-err what xs zero e h = none_kept xs (sym e)
  found_or-err what xs (suc n) e h = absurd (ground arith)

found_or-database :
    (what : String) (n : ℕ) {text : String} → found_or what n ≡ err (database text) → ⊥
found_or-database what zero h = cc
found_or-database what (suc n) h = ground arith

keeps_others :
    (id : String) (c : PoolChangeset) (rows : List Pools)
    → any (has_id id) rows ≡ false
    → map (λ p. if has_id id p then changed c p else p) rows ≡ rows
keeps_others id c [] h = refl
keeps_others id c (p ∷ rows) h = ground (arith, keeps_others id c rows)

-- The row of a pool with the fields that a request has.
abbrev pub updated : UpdatePoolRequest → Pools → Pools
updated req p = record {
  pool_id = p.pool_id;
  pool_name = unwrap_or p.pool_name req.pool_name;
  base_asset_id = p.base_asset_id;
  base_asset_decimals = p.base_asset_decimals;
  base_asset_symbol = p.base_asset_symbol;
  base_asset_name = p.base_asset_name;
  quote_asset_id = p.quote_asset_id;
  quote_asset_decimals = p.quote_asset_decimals;
  quote_asset_symbol = p.quote_asset_symbol;
  quote_asset_name = p.quote_asset_name;
  min_size = unwrap_or p.min_size req.min_size;
  lot_size = unwrap_or p.lot_size req.lot_size;
  tick_size = unwrap_or p.tick_size req.tick_size;
}

module _ (db : Database) where
  open db use {
    State, pools, assets, connect, execute, execute-update_pools, execute-delete_pools,
    execute-delete_assets,
  }

  run_statement-cases :
      (st : Statement) (judge : ℕ → Result Unit DeepBookError) (s : State)
      → ((text : String) × (run_statement db st judge s ≡ (err (database text), s)))
        ⊎ ((n : ℕ) × (s' : State) × (execute st s ≡ ok (n, s'))
            × (run_statement db st judge s ≡ (judge n, s')))
  run_statement-cases st judge s = elim (Result-cases (connect s)) [
    | inr (text, e) ↦ inl (text, rw (e, run_statement) refl)
    | inl (_, e) ↦ elim (Result-cases (execute st s)) [
      | inr (text, e') ↦ inl (text, rw (e, e', run_statement) refl)
      | inl ((n, s'), e') ↦ inr (n, s', e', rw (e, e', run_statement) refl)
    ]
  ]

  -- A deletion of a pool that succeeds found a row with its id, and leaves the rows with other ids in
  -- place and no row with this one; it answers "not found" only if there was no such row, and then, as
  -- after a database error, no pool is changed.
  pub delete_pool_lem :
      (id : String) (s : State)
      → let (result, s') = delete_pool db id s in
        (result ≡ ok tt
          → (any (has_id id) (pools s) ≡ true)
            × (pools s' ≡ keep (λ p. not (has_id id p)) (pools s)))
        × (result ≡ err (not_found ("pool " <> id))
            → (any (has_id id) (pools s) ≡ false) × (pools s' ≡ pools s))
        × ((text : String) → result ≡ err (database text) → s' ≡ s)
  unfolding delete_pool
  delete_pool_lem id s = elim (run_statement-cases (delete_pools id) (found_or ("pool " <> id)) s) [
    | inl (text, e) ↦ rw e ((λ h. cc), (λ h. cc), (λ t h. refl))
    | inr (n, s', done, e) ↦
        let (count, rest, _) = execute-delete_pools id s s' n done in
        rw e (
          (λ h. (found_or-ok (has_id id) _ (pools s) n count h, rest)),
          (λ h.
              let missing = found_or-err (has_id id) _ (pools s) n count h in
              (missing, rest ∙ keep_all (has_id id) (pools s) missing)),
          (λ t h. absurd (found_or-database _ n h)),
        )
  ]

  -- An update of a pool that succeeds found a row with its id, and sets in the rows with this id the
  -- name, the minimum size, the lot size and the tick size to those that the request has, each where it
  -- has one, and nothing else; the other rows stay. It answers "not found" only if there was no such
  -- row, and then, as after a database error, no pool is changed.
  pub update_pool_lem :
      (id : String) (req : UpdatePoolRequest) (s : State)
      → let (result, s') = update_pool db id req s in
        (result ≡ ok tt
          → (any (has_id id) (pools s) ≡ true)
            × (pools s' ≡ map (λ p. if has_id id p then updated req p else p) (pools s)))
        × (result ≡ err (not_found ("pool " <> id))
            → (any (has_id id) (pools s) ≡ false) × (pools s' ≡ pools s))
        × ((text : String) → result ≡ err (database text) → s' ≡ s)
  unfolding update_pool
  update_pool_lem id req s =
      let c = to_changeset req in
      elim (run_statement-cases (update_pools id c) (found_or ("pool " <> id)) s) [
        | inl (text, e) ↦ rw e ((λ h. cc), (λ h. cc), (λ t h. refl))
        | inr (n, s', done, e) ↦
            let (count, rest, _) = execute-update_pools id c s s' n done in
            rw e (
              (λ h. (found_or-ok (has_id id) _ (pools s) n count h, rest)),
              (λ h.
                  let missing = found_or-err (has_id id) _ (pools s) n count h in
                  (missing, rest ∙ keeps_others id c (pools s) missing)),
              (λ t h. absurd (found_or-database _ n h)),
            )
      ]

  -- A deletion of an asset that succeeds found a row with its type, and leaves the others in place and
  -- no row with this one; it answers "not found" only if there was no such row, and then, as after a
  -- database error, no asset is changed. The pools stay in every case.
  pub delete_asset_lem :
      (id : String) (s : State)
      → let (result, s') = delete_asset db id s in
        (pools s' ≡ pools s)
        × (result ≡ ok tt
            → (any (has_type id) (assets s) ≡ true)
              × (assets s' ≡ keep (λ a. not (has_type id a)) (assets s)))
        × (result ≡ err (not_found ("asset " <> id))
            → (any (has_type id) (assets s) ≡ false) × (assets s' ≡ assets s))
        × ((text : String) → result ≡ err (database text) → s' ≡ s)
  unfolding delete_asset
  delete_asset_lem id s =
      elim (run_statement-cases (delete_assets id) (found_or ("asset " <> id)) s) [
        | inl (text, e) ↦ rw e (refl, (λ h. cc), (λ h. cc), (λ t h. refl))
        | inr (n, s', done, e) ↦
            let (count, rest, same) = execute-delete_assets id s s' n done in
            rw e (
              same,
              (λ h. (found_or-ok (has_type id) _ (assets s) n count h, rest)),
              (λ h.
                  let missing = found_or-err (has_type id) _ (assets s) n count h in
                  (missing, rest ∙ keep_all (has_type id) (assets s) missing)),
              (λ t h. absurd (found_or-database _ n h)),
            )
      ]

  -- What a deletion of a pool does, by its result.
  abbrev pub IsPoolDeletion : String → State → Type 0
  IsPoolDeletion id s =
      let (result, s') = delete_pool db id s in
      (result ≡ ok tt
        → (any (has_id id) (pools s) ≡ true) × (pools s' ≡ keep (λ p. not (has_id id p)) (pools s)))
      × (result ≡ err (not_found ("pool " <> id))
          → (any (has_id id) (pools s) ≡ false) × (pools s' ≡ pools s))
      × ((text : String) → result ≡ err (database text) → s' ≡ s)

  -- What a deletion of an asset does, by its result.
  abbrev pub IsAssetDeletion : String → State → Type 0
  IsAssetDeletion id s =
      let (result, s') = delete_asset db id s in
      (pools s' ≡ pools s)
      × (result ≡ ok tt
          → (any (has_type id) (assets s) ≡ true)
            × (assets s' ≡ keep (λ a. not (has_type id a)) (assets s)))
      × (result ≡ err (not_found ("asset " <> id))
          → (any (has_type id) (assets s) ≡ false) × (assets s' ≡ assets s))
      × ((text : String) → result ≡ err (database text) → s' ≡ s)

  -- A deletion of a pool or of an asset that succeeds found a row with its key, and leaves the rows
  -- with other keys in place and no row with this one; it answers "not found" only if there was no such
  -- row, and then, as after a database error, the table is not changed. A deletion of an asset never
  -- changes the pools.
  pub deletions_lem :
      (pool_id asset_type : String) (s : State)
      → IsPoolDeletion pool_id s × IsAssetDeletion asset_type s
  deletions_lem pool_id asset_type s = (delete_pool_lem pool_id s, delete_asset_lem asset_type s)
