-- ===== src/Tests/Margin.antt =====
-- A pool's state read from a small chain, and gauges after two polls.
use rain_protocol.Prelude.{
  ℕ, ◌≡◌, refl, String, List, [], ◌∷◌, ◌++◌, map, Option, none, some, str_eq, if◌then◌else◌,
}
use rain_protocol.Prelude.Int.{pos}
use rain_protocol.Prelude.Result.{Result, ok, err}
use rain_protocol.Prelude.Text.{starts_with}
use rain_protocol.Indexer.Sdk.{Bytes}
use rain_protocol.Server.Poller.{MarginPoolState}
use rain_protocol.Server.MarginRpc.{
  SuiClient, shared, MoveCall, Transaction, PoolNumbers, sui_clock_object_id, get_pool_state,
  normalize_asset_type,
}
use rain_protocol.Server.MarginRpc.Laws.{get_pool_state_lem}
use rain_protocol.Server.MarginMetrics.{
  MarginMetrics, quotient, update_all, update_pool_metrics, set,
}
use rain_protocol.Server.MarginMetrics.Laws.{shown, state_of, update_all-shown}

-- What a view function returns.
abbrev call : String → List Bytes
call function =
    if str_eq function "total_supply"
    then (100 ∷ []) ∷ []
    else if str_eq function "total_borrow"
    then (40 ∷ []) ∷ []
    else if str_eq function "get_available_withdrawal"
    then (2 ∷ []) ∷ []
    else (1 ∷ []) ∷ []

-- The simulation fails without the clock.
abbrev simulate : Transaction String → Result (Option (List (List Bytes))) String
simulate tx = elim tx.inputs [
  | [] ↦ err "no input"
  | pool ∷ others ↦ elim others [
    | [] ↦ err "no clock"
    | clock ∷ more ↦ ok (some (map (λ (c : MoveCall String). call c.function) tx.commands))
  ]
]

abbrev read_u64 : Bytes → Result ℕ String
read_u64 [] = err "no bytes"
read_u64 (b ∷ rest) = ok b

abbrev client : SuiClient
client = record {
  TypeTag = String;
  type_tag_from_str = λ s. ok s;
  from_hex_literal = λ s. if str_eq s sui_clock_object_id then ok (6 ∷ []) else ok (1 ∷ []);
  to_hex_literal = λ id. "0x1";
  get_object = λ id. ok (some (some (shared 3)));
  input = λ object inputs. ok (inputs ++ (object ∷ []));
  dev_inspect = simulate;
  u64_from_bytes = read_u64;
}

abbrev numbers : PoolNumbers
numbers = record {
  total_supply = 100;
  total_borrow = 40;
  vault_balance = 1;
  supply_cap = 1;
  interest_rate = 1;
  available_withdrawal = 2;
}

abbrev state : MarginPoolState
state = record {
  pool_id = "0x1";
  asset_type = "0x2::sui::SUI";
  total_supply = 100;
  total_borrow = 40;
  vault_balance = 1;
  supply_cap = 1;
  interest_rate = 1;
  available_withdrawal = 2;
}

tagged : client.type_tag_from_str (normalize_asset_type "2::sui::SUI") ≡ ok "0x2::sui::SUI"
unfolding normalize_asset_type starts_with
tagged = refl

get_pool_state_lem_example :
    get_pool_state client (9 ∷ []) "0x1" "2::sui::SUI"
    ≡ ok (record state { asset_type = normalize_asset_type "2::sui::SUI" })
get_pool_state_lem_example =
    get_pool_state_lem client (9 ∷ []) "0x1" "2::sui::SUI" (1 ∷ []) (6 ∷ []) 3 "0x2::sui::SUI" call
      numbers refl refl refl tagged refl refl refl
      (
        (100 ∷ [], [], refl, refl),
        (40 ∷ [], [], refl, refl),
        (1 ∷ [], [], refl, refl),
        (1 ∷ [], [], refl, refl),
        (1 ∷ [], [], refl, refl),
        (2 ∷ [], [], refl, refl),
      )

abbrev no_gauges : MarginMetrics
no_gauges = record {
  total_supply = λ p a. none;
  total_borrow = λ p a. none;
  vault_balance = λ p a. none;
  supply_cap = λ p a. none;
  interest_rate = λ p a. none;
  available_withdrawal = λ p a. none;
  utilization_rate = λ p a. none;
  solvency_ratio = λ p a. none;
  available_liquidity_pct = λ p a. none;
}

abbrev repaid : MarginPoolState
repaid = record state { total_borrow = 0 }

abbrev elsewhere : MarginPoolState
elsewhere = record state { pool_id = "0x5" }

-- The loans are repaid between the polls, and the solvency ratio stays that of the first.
update_all-shown_example :
    shown
      (update_all ((state, pos 9) ∷ (repaid, pos 9) ∷ (elsewhere, pos 9) ∷ []) no_gauges)
      "0x1"
      "0x2::sui::SUI"
    ≡ state_of repaid
        (pos 9)
        ((update_all ((state, pos 9) ∷ []) no_gauges).solvency_ratio "0x1" "0x2::sui::SUI")
update_all-shown_example =
    update_all-shown ((state, pos 9) ∷ []) ((elsewhere, pos 9) ∷ []) repaid (pos 9) no_gauges
      (refl, tt)

stale :
    (update_all ((state, pos 9) ∷ (repaid, pos 9) ∷ []) no_gauges).solvency_ratio "0x1"
      "0x2::sui::SUI"
    ≡ some (quotient 1 40)
unfolding update_all update_pool_metrics set
stale = refl
