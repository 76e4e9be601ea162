-- ===== src/Server/Ticker/LastPrice.antt =====
-- The prices that the ticker reads: the answer of its `DISTINCT ON` query.
use rain_protocol.Prelude.{
  ◌≡◌, ◌≢◌, ◌⊎◌, inl, inr, String, Bool, true, false, ◌&&◌, List, All, All-weaken, Among, Option,
  none, some, str_eq, eq_iff, arith,
}
use rain_protocol.Prelude.Int.{ℤ, ◌≤ℤ◌, leb_ℤ}
use rain_protocol.Prelude.Map.{get, collect}
use rain_protocol.Prelude.Transfer.{DistinctBy, All-Among}
use rain_protocol.Prelude.Entries.{IsFresh, collect_distinct, get-cases}
use rain_protocol.Schema.Row.Trading.{OrderFill}

abbrev pub in_window : ℤ → ℤ → OrderFill → Bool
in_window start end fill =
    leb_ℤ start fill.checkpoint_timestamp_ms && leb_ℤ fill.checkpoint_timestamp_ms end

module _ (fills : List OrderFill) (start end : ℤ) where
  -- The price of a newest fill of the pool in the window, or none if the window has no fill of it.
  abbrev pub IsLastPrice : String → Option ℤ → Type 0
  IsLastPrice id none =
      All (λ (f : OrderFill). (in_window start end f && str_eq f.pool_id id) ≡ false) fills
  IsLastPrice id (some price) =
      (pick : OrderFill) × Among pick fills
      × (pick.pool_id ≡ id)
      × (in_window start end pick ≡ true)
      × (pick.price ≡ price)
      × All
          (λ (f : OrderFill).
            ((in_window start end f && str_eq f.pool_id id) ≡ false)
            ⊎ (f.checkpoint_timestamp_ms ≤ℤ pick.checkpoint_timestamp_ms))
          fills

  -- What `DISTINCT ON (pool_id)` returns with the newest rows first: one price for each pool that has
  -- a fill in the window, which is a last one.
  pub record IsLastPrices (rows : List (String × ℤ)) : Type 0 where
    pub picked : All (λ (row : String × ℤ). IsLastPrice row.0 (some row.1)) rows
    pub covered :
        All
          (λ (f : OrderFill).
            (in_window start end f ≡ false) ⊎ ((price : ℤ) × Among (f.pool_id, price) rows))
          fills
    pub once : DistinctBy (λ (row : String × ℤ). row.0) rows

  uncovered :
      (rows : List (String × ℤ)) (id : String) (f : OrderFill)
      → IsFresh rows id
      → (in_window start end f ≡ false) ⊎ ((price : ℤ) × Among (f.pool_id, price) rows)
      → (in_window start end f && str_eq f.pool_id id) ≡ false
  uncovered rows id f fresh (inl outside) = ground arith
  uncovered rows id f fresh (inr (price, among)) =
      let other : f.pool_id ≢ id =
        All-Among (λ (row : String × ℤ). row.0 ≢ id) (f.pool_id, price) rows fresh among in
      ground (arith, eq_iff f.pool_id id)

  pub last_price_map_lem :
      (rows : List (String × ℤ)) (id : String)
      → IsLastPrices rows
      → IsLastPrice id (get id (collect rows))
  last_price_map_lem rows id p = rw (collect_distinct rows p.once) (elim (get-cases id rows) [
    | inl (price, found, among) ↦ rw found (
        All-Among (λ (row : String × ℤ). IsLastPrice row.0 (some row.1)) (id, price) rows p.picked
          among)
    | inr (missing, fresh) ↦
        rw missing (All-weaken _ fills (λ f c. uncovered rows id f fresh c) p.covered)
  ])
