-- ===== src/Server/MarginRpc.antt =====
-- deepbookv3/crates/server/src/margin_metrics/rpc_client.rs: the state of a margin pool, read through a
-- simulated transaction. The Sui SDK is an interface.
pub mod Laws
use rain_protocol.Prelude.{
  ℕ, zero, suc, ◌<>◌, ◌||◌, String, List, [], ◌∷◌, Option, none, some, if◌then◌else◌,
}
use rain_protocol.Prelude.Text.{starts_with}
use rain_protocol.Prelude.Result.{Result, ok, err, ok_or, ◌>>=◌}
use rain_protocol.Indexer.Sdk.{Bytes}
use rain_protocol.Server.Poller.{MarginPoolState}

pub data Owner : Type 0 where
  shared : ℕ → Owner
  other : Owner

-- An immutable shared object as an input: its id and its initial version.
pub record SharedObject : Type 0 where
  pub id : Bytes
  pub initial_shared_version : ℕ

pub record MoveCall (Tag : Type 0) : Type 0 where
  pub package_id : Bytes
  pub module_name : String
  pub function : String
  pub type_arguments : List Tag
  -- The positions of its inputs.
  pub arguments : List ℕ

pub record Transaction (Tag : Type 0) : Type 0 where
  pub inputs : List SharedObject
  pub commands : List (MoveCall Tag)

pub record SuiClient : Type 1 where
  -- `TypeTag`, with its parser and the text of its error.
  pub TypeTag : Type 0
  pub type_tag_from_str : String → Result TypeTag String
  -- `ObjectID::from_hex_literal` and `to_hex_literal`.
  pub from_hex_literal : String → Result Bytes String
  pub to_hex_literal : Bytes → String
  -- `get_object_with_options`: the owner of the object, if there is one.
  pub get_object : Bytes → Result (Option (Option Owner)) String
  -- `ProgrammableTransactionBuilder::input`.
  pub input : SharedObject → List SharedObject → Result (List SharedObject) String
  -- `dev_inspect_transaction_block`: the return values of each command, if there are results.
  pub dev_inspect : Transaction TypeTag → Result (Option (List (List Bytes))) String
  -- `bcs::from_bytes::<u64>`.
  pub u64_from_bytes : Bytes → Result ℕ String

abbrev pub margin_pool_module : String
margin_pool_module = "margin_pool"

abbrev pub sui_clock_object_id : String
sui_clock_object_id = "0x0000000000000000000000000000000000000000000000000000000000000006"

unfoldable pub normalize_asset_type : String → String
normalize_asset_type asset_type =
    if starts_with asset_type "0x" || starts_with asset_type "0X"
    then asset_type
    else "0x" <> asset_type

-- `map_err`.
abbrev pub map_err : {A : Type 0} → (String → String) → Result A String → Result A String
map_err f (ok a) = ok a
map_err f (err e) = err (f e)

-- `results.get(index)`.
abbrev pub nth : {A : Type 0} → List A → ℕ → Option A
nth [] n = none
nth (x ∷ xs) zero = some x
nth (x ∷ xs) (suc n) = nth xs n

abbrev pub first_value : {A : Type 0} → List A → Option A
first_value [] = none
first_value (x ∷ xs) = some x

abbrev pub shared_version : String → Option Owner → Result ℕ String
shared_version pool_id (some (shared version)) = ok version
shared_version pool_id owner = err ("Pool " <> (pool_id <> " is not a shared object"))

-- The six numbers that are read.
pub record PoolNumbers : Type 0 where
  pub total_supply : ℕ
  pub total_borrow : ℕ
  pub vault_balance : ℕ
  pub supply_cap : ℕ
  pub interest_rate : ℕ
  pub available_withdrawal : ℕ

module _ (client : SuiClient) (margin_package_id : Bytes) where
  open client use {
    TypeTag, type_tag_from_str, from_hex_literal, to_hex_literal, get_object, input, dev_inspect,
    u64_from_bytes,
  }

  unfoldable pub extract_u64 : List (List Bytes) → ℕ → String → Result ℕ String
  extract_u64 results index func_name = do
    result ← ok_or ("Missing result for " <> func_name) (nth results index)
    bytes ← ok_or ("No return value for " <> func_name) (first_value result)
    map_err (λ e. "Failed to deserialize " <> (func_name <> (" result: " <> e)))
        (u64_from_bytes bytes)

  -- A command that calls a function of the margin pool's module.
  abbrev pub view_call : TypeTag → String → List ℕ → MoveCall TypeTag
  view_call tag function arguments = record {
    package_id = margin_package_id;
    module_name = margin_pool_module;
    function = function;
    type_arguments = tag ∷ [];
    arguments = arguments;
  }

  unfoldable pub pool_commands : TypeTag → List (MoveCall TypeTag)
  pool_commands tag =
      view_call tag "total_supply" (0 ∷ [])
      ∷ view_call tag "total_borrow" (0 ∷ [])
      ∷ view_call tag "vault_balance" (0 ∷ [])
      ∷ view_call tag "supply_cap" (0 ∷ [])
      ∷ view_call tag "interest_rate" (0 ∷ [])
      ∷ view_call tag "get_available_withdrawal" (0 ∷ 1 ∷ [])
      ∷ []

  unfoldable pub query_pool_state : Bytes → ℕ → TypeTag → Result PoolNumbers String
  unfolding extract_u64 pool_commands
  query_pool_state pool_id initial_shared_version tag = do
    with_pool ← input (record { id = pool_id; initial_shared_version = initial_shared_version }) []
    clock_id ← from_hex_literal sui_clock_object_id
    inputs ← input (record { id = clock_id; initial_shared_version = 1 }) with_pool
    inspected ← dev_inspect (record { inputs = inputs; commands = pool_commands tag })
    results ← ok_or "No results from dev_inspect_transaction_block" inspected
    total_supply ← extract_u64 results 0 "total_supply"
    total_borrow ← extract_u64 results 1 "total_borrow"
    vault_balance ← extract_u64 results 2 "vault_balance"
    supply_cap ← extract_u64 results 3 "supply_cap"
    interest_rate ← extract_u64 results 4 "interest_rate"
    available_withdrawal ← extract_u64 results 5 "get_available_withdrawal"
    ok (record {
      total_supply = total_supply;
      total_borrow = total_borrow;
      vault_balance = vault_balance;
      supply_cap = supply_cap;
      interest_rate = interest_rate;
      available_withdrawal = available_withdrawal;
    })

  unfoldable pub get_pool_state : String → String → Result MarginPoolState String
  unfolding query_pool_state normalize_asset_type
  get_pool_state pool_id asset_type = do
    pool_object_id ←
        map_err (λ e. "Invalid pool ID '" <> (pool_id <> ("': " <> e))) (from_hex_literal pool_id)
    pool_object ← get_object pool_object_id
    owner ← ok_or ("Pool " <> (pool_id <> " not found")) pool_object
    initial_shared_version ← shared_version pool_id owner
    tag ←
        map_err (λ e. "Invalid asset type '" <> (normalize_asset_type asset_type <> ("': " <> e)))
          (type_tag_from_str (normalize_asset_type asset_type))
    state ← query_pool_state pool_object_id initial_shared_version tag
    ok (record {
      pool_id = to_hex_literal pool_object_id;
      asset_type = normalize_asset_type asset_type;
      total_supply = state.total_supply;
      total_borrow = state.total_borrow;
      vault_balance = state.vault_balance;
      supply_cap = state.supply_cap;
      interest_rate = state.interest_rate;
      available_withdrawal = state.available_withdrawal;
    })
