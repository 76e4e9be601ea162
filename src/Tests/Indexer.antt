-- ===== src/Tests/Indexer.antt =====
-- The generic handler's theorems at a concrete checkpoint.
use rain_protocol.Prelude.{
  String, true, List, [], ◌∷◌, ◌++◌, none, some, any, map, filter_map, str_eq, eq_iff, ◌≡◌, ◌≢◌,
  refl, inl, inr, All, Distinct, length, Bool-cases,
}
use rain_protocol.Prelude.Text.{starts_with, drop_chars}
use rain_protocol.Prelude.Result.{Result, ok, err, traverse}
use rain_protocol.Indexer.Sdk.{Bytes}
use rain_protocol.Indexer.Config.{
  mainnet, core, Error, package_ids, package_addresses, get_all_package_strings,
  get_core_package_addresses, get_margin_package_addresses, mainnet_packages,
  mainnet_margin_packages, is_valid_margin_package, get_module_type, is_core_module, core_modules,
}
use rain_protocol.Indexer.MoveStruct.{
  parse_address_from_hex, matches_event_type, get_all_struct_types,
  get_package_addresses_for_module,
}
use rain_protocol.Indexer.Chain.{is_deepbook_tx, Event}
use rain_protocol.Indexer.Handler.{Handler}
use rain_protocol.Indexer.Handlers.BalanceManager.{balances_handler}
use rain_protocol.Indexer.Handlers.Keys.{handlers-IsKeyed}
use rain_protocol.Indexer.Process.{process, process_txs, process_events}
use rain_protocol.Indexer.Process.Spec.{row_of, chosen_in, process_lem}
use rain_protocol.Indexer.Process.Digests.{IsKeyed, HasSeparateDigests, process-keys-Distinct}
use rain_protocol.Indexer.Process.Prefilter.{ReadsHex, is_deepbook_tx-matches}
use rain_protocol.Indexer.Commit.{Table, first_with, or_else, commit, process-commit}
use rain_protocol.Schema.Row.Trading.{Balances}
use rain_protocol.Indexer.Event.BalanceManager.{BalanceEvent}
use rain_protocol.Tests.Sdk.{test_sdk, hex_decode, checkpoint, balance_from_bytes, tx_of, event_of}

abbrev pub addresses : List Bytes
addresses = filter_map test_sdk.account_address_from_str (get_all_package_strings mainnet)

pub parsed : package_addresses test_sdk mainnet ≡ ok addresses
unfolding package_addresses get_all_package_strings get_core_package_addresses
    get_margin_package_addresses mainnet_packages mainnet_margin_packages is_valid_margin_package
    parse_address_from_hex starts_with drop_chars hex_decode traverse
parsed = refl

pub parsed_ids : package_ids test_sdk mainnet ≡ ok addresses
unfolding package_ids get_all_package_strings get_core_package_addresses
    get_margin_package_addresses mainnet_packages mainnet_margin_packages is_valid_margin_package
    parse_address_from_hex starts_with drop_chars hex_decode traverse
parsed_ids = refl

abbrev handler : Handler BalanceEvent Balances
handler = balances_handler test_sdk

process_lem_example :
    process test_sdk handler balance_from_bytes mainnet checkpoint
    ≡ traverse (row_of test_sdk handler balance_from_bytes mainnet) (
        chosen_in test_sdk handler balance_from_bytes mainnet addresses addresses checkpoint
          checkpoint.transactions)
process_lem_example =
    process_lem test_sdk handler balance_from_bytes mainnet addresses addresses parsed parsed_ids
      checkpoint

keyed : IsKeyed handler
keyed = (handlers-IsKeyed test_sdk).3

differ : ◌≢◌ {A = String} "Da" "Db"
differ e = absurd (cc ((eq_iff "Da" "Db").1 e))

separate : HasSeparateDigests checkpoint.transactions
separate = (((differ, refl), tt), (tt, tt))

abbrev rows_or_none : {R : Type 0} → Result (List R) Error → List R
rows_or_none (ok rows) = rows
rows_or_none (err e) = []

abbrev rows : List Balances
rows = rows_or_none (process test_sdk handler balance_from_bytes mainnet checkpoint)

done : process test_sdk handler balance_from_bytes mainnet checkpoint ≡ ok rows
unfolding process process_txs process_events is_deepbook_tx package_addresses package_ids
    get_all_package_strings get_core_package_addresses get_margin_package_addresses mainnet_packages
    mainnet_margin_packages is_valid_margin_package parse_address_from_hex starts_with drop_chars
    hex_decode traverse balances_handler matches_event_type get_all_struct_types
    get_package_addresses_for_module get_module_type is_core_module core_modules
done = refl

process-keys-Distinct_example : Distinct (map handler.key rows)
process-keys-Distinct_example =
    process-keys-Distinct test_sdk handler balance_from_bytes mainnet addresses addresses parsed
      parsed_ids keyed checkpoint separate rows done

-- The checkpoint has three rows.
three_rows : length rows ≡ 3
unfolding process process_txs process_events is_deepbook_tx package_addresses package_ids
    get_all_package_strings get_core_package_addresses get_margin_package_addresses mainnet_packages
    mainnet_margin_packages is_valid_margin_package parse_address_from_hex starts_with drop_chars
    hex_decode traverse balances_handler matches_event_type get_all_struct_types
    get_package_addresses_for_module get_module_type is_core_module core_modules
three_rows = refl

first_with-append :
    {R : Type 0} (key : R → String) (k : String) (s values : List R)
    → first_with key k (s ++ values) ≡ or_else (first_with key k s) (first_with key k values)
first_with-append key k [] values = refl
first_with-append key k (r ∷ s) values = elim (Bool-cases (str_eq (key r) k)) [
  | inl e ↦ rw e refl
  | inr e ↦ rw e (first_with-append key k s values)
]

-- A table as a log, in which the first row with a key counts.
abbrev table : Table Balances handler.key
table = record {
  State = List Balances;
  lookup = λ k s. first_with handler.key k s;
  insert_or_ignore = λ values s. (s ++ values, length values);
  lookup-insert = λ k values s. first_with-append handler.key k s values;
}

free : (rs : List Balances) → All (λ row. table.lookup (handler.key row) [] ≡ none) rs
free [] = tt
free (r ∷ rs) = (refl, free rs)

process-commit_example :
    All (λ row. table.lookup (handler.key row) (commit handler table rows []).0 ≡ some row) rows
process-commit_example =
    process-commit handler table test_sdk balance_from_bytes mainnet addresses addresses parsed
      parsed_ids keyed checkpoint separate rows done [] (free rows)

abbrev events : List Event
events = event_of "order" "OrderFilled" 1 ∷ event_of "balance_manager" "BalanceEvent" 2 ∷ []

is_core : get_module_type "balance_manager" ≡ core
unfolding get_module_type is_core_module core_modules
is_core = refl

matched :
    any
      (λ (ev : Event).
        matches_event_type test_sdk "balance_manager" "BalanceEvent" mainnet ev.type_)
      events
    ≡ true
unfolding get_core_package_addresses mainnet_packages parse_address_from_hex starts_with drop_chars
    hex_decode matches_event_type get_all_struct_types get_package_addresses_for_module
    get_module_type is_core_module core_modules
matched = refl

reads : ReadsHex test_sdk
unfolding parse_address_from_hex
reads s b e = e

is_deepbook_tx-matches_example : is_deepbook_tx test_sdk (tx_of "Da" events) mainnet ≡ ok true
is_deepbook_tx-matches_example =
    is_deepbook_tx-matches test_sdk mainnet "balance_manager" "BalanceEvent" (tx_of "Da" events)
      events addresses addresses reads parsed parsed_ids (inl is_core) refl matched
