-- ===== src/Server/Events/MarginManager.antt =====
-- deepbookv3/crates/server/src/server.rs: the endpoints for the events of margin managers.
use rain_protocol.Prelude.{none, some}
use rain_protocol.Prelude.Int.{ℤ}
use rain_protocol.Prelude.Map.{get}
use rain_protocol.Server.Params.{
  Params, end_time, start_time_or_day, limit, get_or_default, parse_bool,
}
use rain_protocol.Server.Reader.{Table, RpcMetrics, Answer}
use rain_protocol.Server.Reader.MarginManager.{
  get_margin_manager_created, get_loan_borrowed, get_loan_repaid, get_liquidation,
  get_collateral_events,
}
use rain_protocol.Schema.Row.MarginManager.{
  MarginManagerCreated, LoanBorrowed, LoanRepaid, Liquidation, CollateralEvent,
}

unfoldable pub margin_manager_created :
    Table MarginManagerCreated → ℤ → Params → RpcMetrics → Answer MarginManagerCreated
unfolding get_margin_manager_created
margin_manager_created t now params m =
    let end = end_time now params in
    get_margin_manager_created t (start_time_or_day end params) end (limit params)
      (get_or_default "margin_manager_id" params) m

unfoldable pub loan_borrowed : Table LoanBorrowed → ℤ → Params → RpcMetrics → Answer LoanBorrowed
unfolding get_loan_borrowed
loan_borrowed t now params m =
    let end = end_time now params in
    get_loan_borrowed t (start_time_or_day end params) end (limit params)
      (get_or_default "margin_manager_id" params) (get_or_default "margin_pool_id" params) m

unfoldable pub loan_repaid : Table LoanRepaid → ℤ → Params → RpcMetrics → Answer LoanRepaid
unfolding get_loan_repaid
loan_repaid t now params m =
    let end = end_time now params in
    get_loan_repaid t (start_time_or_day end params) end (limit params)
      (get_or_default "margin_manager_id" params) (get_or_default "margin_pool_id" params) m

unfoldable pub liquidation : Table Liquidation → ℤ → Params → RpcMetrics → Answer Liquidation
unfolding get_liquidation
liquidation t now params m =
    let end = end_time now params in
    get_liquidation t (start_time_or_day end params) end (limit params)
      (get_or_default "margin_manager_id" params) (get_or_default "margin_pool_id" params) m

unfoldable pub collateral_events :
    Table CollateralEvent → ℤ → Params → RpcMetrics → Answer CollateralEvent
unfolding get_collateral_events
collateral_events t now params m =
    let end = end_time now params in
    get_collateral_events t (start_time_or_day end params) end (limit params)
      (get_or_default "margin_manager_id" params) (get_or_default "type" params)
      (elim (get "is_base" params) [ none ↦ none | some v ↦ parse_bool v ]) m
