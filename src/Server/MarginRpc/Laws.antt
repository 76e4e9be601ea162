-- ===== src/Server/MarginRpc/Laws.antt =====
-- The state that the RPC client returns is the chain's.
use rain_protocol.Prelude.{ℕ, ◌≡◌, refl, String, List, [], ◌∷◌, map, some}
use rain_protocol.Prelude.Result.{ok}
use rain_protocol.Indexer.Sdk.{Bytes}
use rain_protocol.Server.MarginRpc.{
  SuiClient, shared, SharedObject, Transaction, PoolNumbers, sui_clock_object_id,
  normalize_asset_type, get_pool_state, query_pool_state, extract_u64, pool_commands,
}

-- The view functions of a margin pool, each with the positions of its arguments: the pool is the first
-- object of the transaction, and the clock the second.
abbrev pub views : List (String × List ℕ)
views =
    ("total_supply", 0 ∷ [])
    ∷ ("total_borrow", 0 ∷ [])
    ∷ ("vault_balance", 0 ∷ [])
    ∷ ("supply_cap", 0 ∷ [])
    ∷ ("interest_rate", 0 ∷ [])
    ∷ ("get_available_withdrawal", 0 ∷ 1 ∷ [])
    ∷ []

module _ (client : SuiClient) (package_id : Bytes) (pool clock : SharedObject)
    (tag : client.TypeTag) where
  -- The transaction that reads one pool: it calls these functions for the pool's asset.
  abbrev pub reading : Transaction client.TypeTag
  reading = record {
    inputs = pool ∷ clock ∷ [];
    commands =
        map
          (λ (function, arguments). record {
            package_id = package_id;
            module_name = "margin_pool";
            function = function;
            type_arguments = tag ∷ [];
            arguments = arguments;
          })
          views;
  }

-- The first of the values that a function returned is the encoding of a number.
abbrev pub IsEncoded : (client : SuiClient) → List Bytes → ℕ → Type 0
IsEncoded client returned n =
    (first : Bytes) × (rest : List Bytes) × (returned ≡ first ∷ rest)
    × (client.u64_from_bytes first ≡ ok n)

-- The six numbers, each as the function of its name returned it.
abbrev pub AreEncoded : (client : SuiClient) → (String → List Bytes) → PoolNumbers → Type 0
AreEncoded client returned n =
    IsEncoded client (returned "total_supply") n.total_supply
    × IsEncoded client (returned "total_borrow") n.total_borrow
    × IsEncoded client (returned "vault_balance") n.vault_balance
    × IsEncoded client (returned "supply_cap") n.supply_cap
    × IsEncoded client (returned "interest_rate") n.interest_rate
    × IsEncoded client (returned "get_available_withdrawal") n.available_withdrawal

-- Suppose the pool id and the clock's id parse, the pool is a shared object, its asset type, with the
-- prefix `0x` added where it has none, parses, and the builder adds the two objects as inputs. If the
-- simulation of the transaction that calls the pool's six view functions, on the pool at its initial
-- version, and `get_available_withdrawal` with the clock besides, answers with what each function
-- returned, in their order, and each returned an encoded number first, then the client returns the state
-- with these six numbers, each in its own field.
pub get_pool_state_lem :
    (client : SuiClient) (package_id : Bytes) (pool_id asset_type : String) (id clock_id : Bytes)
    (version : ℕ) (tag : client.TypeTag) (returned : String → List Bytes) (n : PoolNumbers)
    → client.from_hex_literal pool_id ≡ ok id
    → client.from_hex_literal sui_clock_object_id ≡ ok clock_id
    → client.get_object id ≡ ok (some (some (shared version)))
    → client.type_tag_from_str (normalize_asset_type asset_type) ≡ ok tag
    → let pool : SharedObject = record { id = id; initial_shared_version = version } in
      let clock : SharedObject = record { id = clock_id; initial_shared_version = 1 } in
      client.input pool [] ≡ ok (pool ∷ [])
      → client.input clock (pool ∷ []) ≡ ok (pool ∷ clock ∷ [])
      → client.dev_inspect (reading client package_id pool clock tag)
        ≡ ok (some (map (λ (function, arguments). returned function) views))
      → AreEncoded client returned n
      → get_pool_state client package_id pool_id asset_type
        ≡ ok (record {
          pool_id = client.to_hex_literal id;
          asset_type = normalize_asset_type asset_type;
          total_supply = n.total_supply;
          total_borrow = n.total_borrow;
          vault_balance = n.vault_balance;
          supply_cap = n.supply_cap;
          interest_rate = n.interest_rate;
          available_withdrawal = n.available_withdrawal;
        })
unfolding get_pool_state query_pool_state extract_u64 pool_commands
get_pool_state_lem client package_id pool_id asset_type id clock_id version tag returned n parsed
      clock found tagged adds_pool adds_clock simulated
      (
        (a, _, a₁, a₂),
        (b, _, b₁, b₂),
        (c, _, c₁, c₂),
        (d, _, d₁, d₂),
        (e, _, e₁, e₂),
        (f, _, f₁, f₂),
      ) =
    rw
      (
        parsed, found, tagged, adds_pool, clock, adds_clock, simulated, a₁, a₂, b₁, b₂, c₁, c₂, d₁,
        d₂, e₁, e₂, f₁, f₂,
      )
      refl
