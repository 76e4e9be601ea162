-- ===== src/Server/Reader/MarginManager.antt =====
-- deepbookv3/crates/server/src/reader.rs: queries of the events of margin managers.
use rain_protocol.Prelude.{String, Bool, true, false, not, List, [], ◌∷◌, Option, none, some}
use rain_protocol.Prelude.Int.{ℤ}
use rain_protocol.Server.Error.{database}
use rain_protocol.Server.Reader.{
  Filter, holds, counted, between, like, to_pattern, Table, RpcMetrics, Answer, results,
}
use rain_protocol.Schema.Row.MarginManager.{
  MarginManagerCreated, LoanBorrowed, LoanRepaid, Liquidation, CollateralEvent,
}

unfoldable pub get_margin_manager_created :
    Table MarginManagerCreated → ℤ → ℤ → ℤ → String → RpcMetrics → Answer MarginManagerCreated
unfolding results to_pattern
get_margin_manager_created t start_time end_time limit margin_manager_id_filter m =
    results t
      (record {
        filters =
            between (λ r. r.checkpoint_timestamp_ms) start_time end_time
            ∷ like (λ r. r.margin_manager_id) (to_pattern margin_manager_id_filter)
            ∷ [];
        order_by_desc = λ r. r.checkpoint_timestamp_ms;
        limit = some limit;
      })
      m

unfoldable pub get_loan_borrowed :
    Table LoanBorrowed → ℤ → ℤ → ℤ → String → String → RpcMetrics → Answer LoanBorrowed
unfolding results to_pattern
get_loan_borrowed t start_time end_time limit margin_manager_id_filter margin_pool_id_filter m =
    results t
      (record {
        filters =
            between (λ r. r.checkpoint_timestamp_ms) start_time end_time
            ∷ like (λ r. r.margin_manager_id) (to_pattern margin_manager_id_filter)
            ∷ like (λ r. r.margin_pool_id) (to_pattern margin_pool_id_filter)
            ∷ [];
        order_by_desc = λ r. r.checkpoint_timestamp_ms;
        limit = some limit;
      })
      m

unfoldable pub get_loan_repaid :
    Table LoanRepaid → ℤ → ℤ → ℤ → String → String → RpcMetrics → Answer LoanRepaid
unfolding results to_pattern
get_loan_repaid t start_time end_time limit margin_manager_id_filter margin_pool_id_filter m =
    results t
      (record {
        filters =
            between (λ r. r.checkpoint_timestamp_ms) start_time end_time
            ∷ like (λ r. r.margin_manager_id) (to_pattern margin_manager_id_filter)
            ∷ like (λ r. r.margin_pool_id) (to_pattern margin_pool_id_filter)
            ∷ [];
        order_by_desc = λ r. r.checkpoint_timestamp_ms;
        limit = some limit;
      })
      m

unfoldable pub get_liquidation :
    Table Liquidation → ℤ → ℤ → ℤ → String → String → RpcMetrics → Answer Liquidation
unfolding results to_pattern
get_liquidation t start_time end_time limit margin_manager_id_filter margin_pool_id_filter m =
    results t
      (record {
        filters =
            between (λ r. r.checkpoint_timestamp_ms) start_time end_time
            ∷ like (λ r. r.margin_manager_id) (to_pattern margin_manager_id_filter)
            ∷ like (λ r. r.margin_pool_id) (to_pattern margin_pool_id_filter)
            ∷ [];
        order_by_desc = λ r. r.checkpoint_timestamp_ms;
        limit = some limit;
      })
      m

-- SQL's `column = value`: a null is not equal to anything.
abbrev pub is_some_of : Bool → Option Bool → Bool
is_some_of b none = false
is_some_of true (some c) = c
is_some_of false (some c) = not c

-- The last filter is there if the request has it.
abbrev pub withdraw_filter : Option Bool → List (Filter CollateralEvent)
withdraw_filter none = []
withdraw_filter (some is_base) = holds (λ r. is_some_of is_base r.withdraw_base_asset) ∷ []

unfoldable pub get_collateral_events :
    Table CollateralEvent
    → ℤ
    → ℤ
    → ℤ
    → String
    → String
    → Option Bool
    → RpcMetrics
    → Answer CollateralEvent
unfolding counted to_pattern
get_collateral_events t start_time end_time limit margin_manager_id_filter event_type_filter
      is_base_filter m =
    counted (λ _. database "Error fetching collateral events") t.connect
      (t.get_results (record {
        filters =
            between (λ r. r.checkpoint_timestamp_ms) start_time end_time
            ∷ like (λ r. r.margin_manager_id) (to_pattern margin_manager_id_filter)
            ∷ like (λ r. r.event_type) (to_pattern event_type_filter)
            ∷ withdraw_filter is_base_filter;
        order_by_desc = λ r. r.checkpoint_timestamp_ms;
        limit = some limit;
      }))
      m
