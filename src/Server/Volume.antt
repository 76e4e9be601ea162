-- ===== src/Server/Volume.antt =====
-- deepbookv3/crates/server/src/server.rs: traded volume by pool. The reader's query is a parameter.
pub mod Laws
pub mod ByPool
use rain_protocol.Prelude.{
  ℕ, String, Bool, true, false, List, [], ◌∷◌, Option, none, some, map, find, filter_map, unwrap_or,
  str_eq, if◌then◌else◌,
}
use rain_protocol.Prelude.Int.{ℤ, pos}
use rain_protocol.Prelude.Words.{as_u64, add_u64, add_i64}
use rain_protocol.Prelude.Text.{split, join}
use rain_protocol.Prelude.Map.{HashMap, get, insert, collect}
use rain_protocol.Prelude.Result.{Result, ok, err, ◌>>=◌}
use rain_protocol.Schema.Row.Api.{Pools, OrderFillSummary}
use rain_protocol.Server.Error.{DeepBookError, bad_request}
use rain_protocol.Server.Params.{Params, end_time, start_time_or_day, volume_in_base}

-- Pool ids by pool name.
unfoldable pub pool_name_to_id : List Pools → HashMap String
pool_name_to_id pools = collect (map (λ (p : Pools). (p.pool_name, p.pool_id)) pools)

unfoldable pub pool_ids : HashMap String → String → List String
pool_ids name_to_id pool_names = filter_map (λ name. get name name_to_id) (split b',' pool_names)

-- `.iter().find(|(_, id)| **id == pool_id).map(|(name, _)| name)`.
unfoldable pub name_of : HashMap String → String → Option String
name_of name_to_id pool_id = elim (find (λ (name, id). str_eq id pool_id) name_to_id) [
  | none ↦ none
  | some (name, id) ↦ some name
]

-- `*entry(name).or_insert(0) += volume as u64`.
unfoldable pub add_volume : HashMap ℕ → Option String → ℤ → HashMap ℕ
add_volume volumes none volume = volumes
add_volume volumes (some name) volume =
    insert name (add_u64 (unwrap_or 0 (get name volumes)) (as_u64 volume)) volumes

unfoldable pub aggregate : HashMap String → HashMap ℕ → List (String × ℤ) → HashMap ℕ
unfolding add_volume
aggregate name_to_id volumes [] = volumes
aggregate name_to_id volumes ((pool_id, volume) ∷ rest) =
    aggregate name_to_id (add_volume volumes (name_of name_to_id pool_id) volume) rest

abbrev pub no_pools : DeepBookError
no_pools = bad_request "No valid pool names provided"

abbrev pub non_empty_or :
    {A : Type 0} → DeepBookError → List String → Result A DeepBookError → Result A DeepBookError
non_empty_or e [] r = err e
non_empty_or e (id ∷ ids) r = r

-- `reader start end pool_ids volume_in_base` is `Reader::get_historical_volume`.
module _ (reader : ℤ → ℤ → List String → Bool → Result (List (String × ℤ)) DeepBookError)
    (now : ℤ) where
  unfoldable pub historical_volume : List Pools → String → Params → Result (HashMap ℕ) DeepBookError
  unfolding aggregate
  historical_volume pools pool_names params =
      let name_to_id = pool_name_to_id pools in
      let ids = pool_ids name_to_id pool_names in
      let end = end_time now params in
      non_empty_or no_pools ids (do
        results ← reader (start_time_or_day end params) end ids (volume_in_base params)
        ok (aggregate name_to_id [] results))

  -- `pools` is the answer to its own query, `again` to that of `historical_volume`.
  unfoldable pub all_historical_volume :
      List Pools → List Pools → Params → Result (HashMap ℕ) DeepBookError
  unfolding historical_volume
  all_historical_volume pools again params =
      historical_volume again (join "," (map (λ (p : Pools). p.pool_name) pools)) params

-- Maker and taker volume of one balance manager.
unfoldable pub add_fill :
    String → HashMap (ℤ × ℤ) → Option String → OrderFillSummary → HashMap (ℤ × ℤ)
add_fill balance_manager_id volumes none fill = volumes
add_fill balance_manager_id volumes (some name) fill =
    let (maker, taker) = unwrap_or (pos 0, pos 0) (get name volumes) in
    insert name
      (
        if str_eq fill.maker_balance_manager_id balance_manager_id
            then add_i64 maker fill.quantity
            else maker,
        if str_eq fill.taker_balance_manager_id balance_manager_id
            then add_i64 taker fill.quantity
            else taker,
      )
      volumes

unfoldable pub volume_by_pool :
    HashMap String → String → HashMap (ℤ × ℤ) → List OrderFillSummary → HashMap (ℤ × ℤ)
unfolding add_fill
volume_by_pool name_to_id balance_manager_id volumes [] = volumes
volume_by_pool name_to_id balance_manager_id volumes (fill ∷ rest) =
    volume_by_pool name_to_id balance_manager_id
      (add_fill balance_manager_id volumes (name_of name_to_id fill.pool_id) fill) rest

-- `reader` is `Reader::get_order_fill_summary`.
module _
    (reader : ℤ → ℤ → List String → String → Bool → Result (List OrderFillSummary) DeepBookError)
    (now : ℤ) where
  unfoldable pub get_historical_volume_by_balance_manager_id :
      List Pools → String → String → Params → Result (HashMap (ℤ × ℤ)) DeepBookError
  unfolding volume_by_pool
  get_historical_volume_by_balance_manager_id pools pool_names balance_manager_id params =
      let name_to_id = pool_name_to_id pools in
      let ids = pool_ids name_to_id pool_names in
      let end = end_time now params in
      non_empty_or no_pools ids (do
        results ←
            reader (start_time_or_day end params) end ids balance_manager_id (volume_in_base params)
        ok (volume_by_pool name_to_id balance_manager_id [] results))
