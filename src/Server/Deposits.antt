-- ===== src/Server/Deposits.antt =====
-- deepbookv3/crates/server/src/server.rs: `deposited_assets` and `get_points`, which answer for a list
-- of ids in the request. The reader's queries are parameters.
pub mod Laws
use rain_protocol.Prelude.{
  ℕ, String, Bool, true, false, List, [], ◌∷◌, ◌++◌, map, Option, none, some, unwrap_or,
  if◌then◌else◌,
}
use rain_protocol.Prelude.Int.{ℤ, pos}
use rain_protocol.Prelude.Map.{HashMap, get, insert, remove, collect}
use rain_protocol.Prelude.Result.{Result, ok, err, ◌>>=◌}
use rain_protocol.Server.Error.{DeepBookError, bad_request}
use rain_protocol.Server.Admin.{non_empty_parts}

pub record BalanceManagerDepositedAssets : Type 0 where
  pub balance_manager_id : String
  pub assets : List String

-- `entry(id).or_default().push(asset)` for every row.
unfoldable pub group_assets : HashMap (List String) → List (String × String) → HashMap (List String)
group_assets assets_by_manager [] = assets_by_manager
group_assets assets_by_manager ((balance_manager_id, asset) ∷ rest) =
    group_assets
      (insert balance_manager_id
        (unwrap_or [] (get balance_manager_id assets_by_manager) ++ (asset ∷ [])) assets_by_manager)
      rest

-- The assets are moved out of the map, so an id that comes again finds none.
unfoldable pub answer_assets :
    HashMap (List String) → List String → List BalanceManagerDepositedAssets
answer_assets assets_by_manager [] = []
answer_assets assets_by_manager (id ∷ ids) =
    record { balance_manager_id = id; assets = unwrap_or [] (get id assets_by_manager) }
    ∷ answer_assets (remove id assets_by_manager) ids

-- `reader` is `Reader::get_deposited_assets_by_balance_managers`.
unfoldable pub deposited_assets :
    (List String → Result (List (String × String)) DeepBookError)
    → String
    → Result (List BalanceManagerDepositedAssets) DeepBookError
unfolding group_assets answer_assets
deposited_assets reader balance_manager_ids = elim (non_empty_parts balance_manager_ids) [
  | [] ↦ err (bad_request "No balance manager IDs provided")
  | id ∷ rest ↦ do
    results ← reader (id ∷ rest)
    ok (answer_assets (group_assets [] results) (id ∷ rest))
]

pub record AddressPoints : Type 0 where
  pub address : String
  pub total_points : ℤ

abbrev pub points_of : HashMap ℤ → String → AddressPoints
points_of results_map addr = record {
  address = addr;
  total_points = unwrap_or (pos 0) (get addr results_map);
}

-- `reader` is `Reader::get_points`.
unfoldable pub get_points :
    (List String → Result (List (String × ℤ)) DeepBookError)
    → Option String
    → Result (List AddressPoints) DeepBookError
get_points reader none = ok []
get_points reader (some s) = elim (non_empty_parts s) [
  | [] ↦ ok []
  | addr ∷ rest ↦ do
    results ← reader (addr ∷ rest)
    ok (map (points_of (collect results)) (addr ∷ rest))
]
