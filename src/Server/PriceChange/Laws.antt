-- ===== src/Server/PriceChange/Laws.antt =====
-- Which price change `summary` shows of a pool.
use rain_protocol.Prelude.{
  ℕ, ◌+◌, ◌-◌, ◌^◌, ◌∙◌, ◌≡◌, ◌≢◌, refl, ap, inl, inr, String, List, [], ◌∷◌, map, All, Among, some,
  eq_iff, arith,
}
use rain_protocol.Prelude.Int.{ℤ, pos}
use rain_protocol.Prelude.Words.{sub_i64}
use rain_protocol.Prelude.Map.{HashMap, get, insert, get-insert}
use rain_protocol.Prelude.Result.{Result, ok, err}
use rain_protocol.Prelude.Transfer.{DistinctBy, DistinctBy-map, Among-map}
use rain_protocol.Prelude.Entries.{collect_distinct}
use rain_protocol.Schema.Row.Api.{Pools}
use rain_protocol.Server.Error.{DeepBookError}
use rain_protocol.Server.Ticker.Factors.{FitDecimals, price_factor_i16_exact}
use rain_protocol.Server.PriceChange.{
  Change, no_change, percent, change_of, pool_metadata, pool_change, add_changes, price_change_24h,
}

module _ (get_price : ℤ → ℤ → String → Result ℤ DeepBookError) (now : ℤ) where
  get-add_changes_other :
      (name : String) (response : HashMap Change) (metadata : HashMap (String × (ℤ × ℤ)))
      → All (λ e. name ≢ e.0) metadata
      → get name (add_changes get_price now response metadata) ≡ get name response
  unfolding add_changes
  get-add_changes_other name response [] others = refl
  get-add_changes_other name response ((k, (id, (b, q))) ∷ metadata) (ne, others) =
      rw
        (
          get-add_changes_other name (insert k (pool_change get_price now id b q) response) metadata
              others,
          get-insert,
        )
        (ground (arith, eq_iff k name))

  get-add_changes :
      (name id : String) (b q : ℤ) (response : HashMap Change)
      (metadata : HashMap (String × (ℤ × ℤ)))
      → DistinctBy (λ (e : String × (String × (ℤ × ℤ))). e.0) metadata
      → Among (name, (id, (b, q))) metadata
      → get name (add_changes get_price now response metadata)
        ≡ some (pool_change get_price now id b q)
  unfolding add_changes
  get-add_changes name id b q response [] d a = elim a [ ]
  get-add_changes name id b q response ((k, (i, (c, p))) ∷ metadata) (fresh, d) (inl same) =
      let same_name : k ≡ name = ap (λ e. e.0) same in
      let same_id : i ≡ id = ap (λ e. e.1.0) same in
      let same_base : c ≡ b = ap (λ e. e.1.1.0) same in
      let same_quote : p ≡ q = ap (λ e. e.1.1.1) same in
      rw
        (
          ← same_name,
          ← same_id,
          ← same_base,
          ← same_quote,
          get-add_changes_other k (insert k (pool_change get_price now i c p) response) metadata
              fresh,
          get-insert,
        )
        (ground (arith, eq_iff k k))
  get-add_changes name id b q response ((k, (i, (c, p))) ∷ metadata) (fresh, d) (inr later) =
      get-add_changes name id b q (insert k (pool_change get_price now i c p) response) metadata d
        later

abbrev described : Pools → String × (String × (ℤ × ℤ))
described p = (p.pool_name, (p.pool_id, (p.base_asset_decimals, p.quote_asset_decimals)))

-- The change that two prices make, if both are there.
abbrev pub change_between : ℕ → Result ℤ DeepBookError → Result ℤ DeepBookError → Change
change_between factor (ok earlier) (ok later) = percent earlier later factor
change_between factor (err e) later = no_change
change_between factor earlier (err e) = no_change

change_of-change_between :
    (factor : ℕ) (earlier later : Result ℤ DeepBookError)
    → change_of factor earlier later ≡ change_between factor earlier later
change_of-change_between factor (ok e) (ok r) = refl
change_of-change_between factor (ok e) (err why) = refl
change_of-change_between factor (err why) (ok r) = refl
change_of-change_between factor (err why) (err why') = refl

-- If no two pools have the same name, then `price_change_24h` has under the name of each pool whose
-- decimals are in the range of `FitDecimals` the change from the price that is read for the time between
-- 48 and 24 hours ago to the price that is read for the time since then, both by ten to the power 9 -
-- base + quote, and no change if one of the two cannot be read.
pub price_change_24h_lem :
    (get_price : ℤ → ℤ → String → Result ℤ DeepBookError) (now : ℤ) (pools : List Pools)
    (pool : Pools) (b q : ℕ)
    → DistinctBy (λ (p : Pools). p.pool_name) pools
    → Among pool pools
    → pool.base_asset_decimals ≡ pos b
    → pool.quote_asset_decimals ≡ pos q
    → FitDecimals b q
    → get pool.pool_name (price_change_24h get_price now (pool_metadata pools))
      ≡ some (
          change_between
            (10 ^ (9 + q - b))
            (get_price (sub_i64 now (pos 172800000)) (sub_i64 now (pos 86400000)) pool.pool_id)
            (get_price (sub_i64 now (pos 86400000)) now pool.pool_id))
unfolding price_change_24h pool_metadata pool_change
price_change_24h_lem get_price now pools pool b q names among base quote fit =
    let distinct =
      DistinctBy-map (λ (e : String × (String × (ℤ × ℤ))). e.0) described pools names in
    rw (collect_distinct (map described pools) distinct) (
      get-add_changes get_price now pool.pool_name pool.pool_id pool.base_asset_decimals
        pool.quote_asset_decimals [] (map described pools) distinct
        (Among-map described pool pools among)
      ∙ ap some (
          rw (base, quote, price_factor_i16_exact b q fit)
            (change_of-change_between (10 ^ (9 + q - b))
              (get_price (sub_i64 now (pos 172800000)) (sub_i64 now (pos 86400000)) pool.pool_id)
              (get_price (sub_i64 now (pos 86400000)) now pool.pool_id))))
