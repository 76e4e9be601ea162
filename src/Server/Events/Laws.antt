-- ===== src/Server/Events/Laws.antt =====
-- What the endpoints of the margin events promise.
use rain_protocol.Prelude.{String, List, [], ◌∷◌, ◌≡◌, refl, sym, ◌∙◌, ◌⊎◌, inl, inr}
use rain_protocol.Prelude.Int.{ℤ}
use rain_protocol.Prelude.Result.{ok, err}
use rain_protocol.Server.Error.{DeepBookError, internal, into_response}
use rain_protocol.Server.Params.{Params, limit}
use rain_protocol.Server.Reader.{
  Table, Query, RpcMetrics, Answer, results, counted, succeeded, failed,
}
use rain_protocol.Server.Reader.Latest.{
  Columns, IsLatest, event_query, wanted_rows, results-IsLatest, results-eq-ok, counted-eq-err,
}
use rain_protocol.Server.Reader
use rain_protocol.Server.Events
use rain_protocol.Server.Events.Route.{
  Route, RowOf, respond, margin_manager_created, loan_borrowed, loan_repaid, liquidation,
  asset_supplied, asset_withdrawn, deepbook_pool_updated, interest_params_updated,
  margin_pool_config_updated, maintainer_cap_updated, maintainer_fees_withdrawn,
  protocol_fees_withdrawn, supplier_cap_minted, supply_referral_minted, pause_cap_updated,
  protocol_fees_increased, referral_fees_claimed, referral_fee_events, deepbook_pool_registered,
  deepbook_pool_updated_registry, deepbook_pool_config_updated,
}

-- The query parameters that select rows, each with the column that it is compared with.
abbrev pub columns_of : (r : Route) → Columns (RowOf r)
columns_of margin_manager_created = ("margin_manager_id", λ row. row.margin_manager_id) ∷ []
columns_of loan_borrowed =
    ("margin_manager_id", λ row. row.margin_manager_id)
    ∷ ("margin_pool_id", λ row. row.margin_pool_id)
    ∷ []
columns_of loan_repaid =
    ("margin_manager_id", λ row. row.margin_manager_id)
    ∷ ("margin_pool_id", λ row. row.margin_pool_id)
    ∷ []
columns_of liquidation =
    ("margin_manager_id", λ row. row.margin_manager_id)
    ∷ ("margin_pool_id", λ row. row.margin_pool_id)
    ∷ []
columns_of asset_supplied =
    ("margin_pool_id", λ row. row.margin_pool_id) ∷ ("supplier", λ row. row.supplier) ∷ []
columns_of asset_withdrawn =
    ("margin_pool_id", λ row. row.margin_pool_id) ∷ ("supplier", λ row. row.supplier) ∷ []
columns_of deepbook_pool_updated =
    ("margin_pool_id", λ row. row.margin_pool_id)
    ∷ ("deepbook_pool_id", λ row. row.deepbook_pool_id)
    ∷ []
columns_of interest_params_updated = ("margin_pool_id", λ row. row.margin_pool_id) ∷ []
columns_of margin_pool_config_updated = ("margin_pool_id", λ row. row.margin_pool_id) ∷ []
columns_of maintainer_cap_updated = ("maintainer_cap_id", λ row. row.maintainer_cap_id) ∷ []
columns_of maintainer_fees_withdrawn = ("margin_pool_id", λ row. row.margin_pool_id) ∷ []
columns_of protocol_fees_withdrawn = ("margin_pool_id", λ row. row.margin_pool_id) ∷ []
columns_of supplier_cap_minted = ("supplier_cap_id", λ row. row.supplier_cap_id) ∷ []
columns_of supply_referral_minted =
    ("margin_pool_id", λ row. row.margin_pool_id) ∷ ("owner", λ row. row.owner) ∷ []
columns_of pause_cap_updated = ("pause_cap_id", λ row. row.pause_cap_id) ∷ []
columns_of protocol_fees_increased = ("margin_pool_id", λ row. row.margin_pool_id) ∷ []
columns_of referral_fees_claimed =
    ("referral_id", λ row. row.referral_id) ∷ ("owner", λ row. row.owner) ∷ []
columns_of referral_fee_events =
    ("pool_id", λ row. row.pool_id) ∷ ("referral_id", λ row. row.referral_id) ∷ []
columns_of deepbook_pool_registered = ("pool_id", λ row. row.pool_id) ∷ []
columns_of deepbook_pool_updated_registry = ("pool_id", λ row. row.pool_id) ∷ []
columns_of deepbook_pool_config_updated = ("pool_id", λ row. row.pool_id) ∷ []

abbrev pub time_of : (r : Route) → RowOf r → ℤ
time_of margin_manager_created row = row.checkpoint_timestamp_ms
time_of loan_borrowed row = row.checkpoint_timestamp_ms
time_of loan_repaid row = row.checkpoint_timestamp_ms
time_of liquidation row = row.checkpoint_timestamp_ms
time_of asset_supplied row = row.checkpoint_timestamp_ms
time_of asset_withdrawn row = row.checkpoint_timestamp_ms
time_of deepbook_pool_updated row = row.checkpoint_timestamp_ms
time_of interest_params_updated row = row.checkpoint_timestamp_ms
time_of margin_pool_config_updated row = row.checkpoint_timestamp_ms
time_of maintainer_cap_updated row = row.checkpoint_timestamp_ms
time_of maintainer_fees_withdrawn row = row.checkpoint_timestamp_ms
time_of protocol_fees_withdrawn row = row.checkpoint_timestamp_ms
time_of supplier_cap_minted row = row.checkpoint_timestamp_ms
time_of supply_referral_minted row = row.checkpoint_timestamp_ms
time_of pause_cap_updated row = row.checkpoint_timestamp_ms
time_of protocol_fees_increased row = row.checkpoint_timestamp_ms
time_of referral_fees_claimed row = row.checkpoint_timestamp_ms
time_of referral_fee_events row = row.checkpoint_timestamp_ms
time_of deepbook_pool_registered row = row.checkpoint_timestamp_ms
time_of deepbook_pool_updated_registry row = row.checkpoint_timestamp_ms
time_of deepbook_pool_config_updated row = row.checkpoint_timestamp_ms

-- Each handler makes one query: that of its parameters.
pub respond-results :
    (r : Route) (t : Table (RowOf r)) (now : ℤ) (params : Params) (m : RpcMetrics)
    → respond r t now params m ≡ results t (event_query (time_of r) (columns_of r) now params) m
unfolding respond Events.MarginManager.margin_manager_created Events.MarginManager.loan_borrowed
    Events.MarginManager.loan_repaid Events.MarginManager.liquidation
    Events.MarginPool.asset_supplied Events.MarginPool.asset_withdrawn
    Events.MarginPool.deepbook_pool_updated Events.MarginPool.interest_params_updated
    Events.MarginPool.margin_pool_config_updated Events.MarginRegistry.maintainer_cap_updated
    Events.MarginFees.maintainer_fees_withdrawn Events.MarginFees.protocol_fees_withdrawn
    Events.MarginFees.supplier_cap_minted Events.MarginFees.supply_referral_minted
    Events.MarginRegistry.pause_cap_updated Events.MarginFees.protocol_fees_increased
    Events.MarginFees.referral_fees_claimed Events.MarginFees.referral_fee_events
    Events.MarginRegistry.deepbook_pool_registered
    Events.MarginRegistry.deepbook_pool_updated_registry
    Events.MarginRegistry.deepbook_pool_config_updated
    Reader.MarginManager.get_margin_manager_created Reader.MarginManager.get_loan_borrowed
    Reader.MarginManager.get_loan_repaid Reader.MarginManager.get_liquidation
    Reader.MarginPool.get_asset_supplied Reader.MarginPool.get_asset_withdrawn
    Reader.MarginPool.get_deepbook_pool_updated Reader.MarginPool.get_interest_params_updated
    Reader.MarginPool.get_margin_pool_config_updated
    Reader.MarginRegistry.get_maintainer_cap_updated Reader.MarginFees.get_maintainer_fees_withdrawn
    Reader.MarginFees.get_protocol_fees_withdrawn Reader.MarginFees.get_supplier_cap_minted
    Reader.MarginFees.get_supply_referral_minted Reader.MarginRegistry.get_pause_cap_updated
    Reader.MarginFees.get_protocol_fees_increased Reader.MarginFees.get_referral_fees_claimed
    Reader.MarginFees.get_referral_fee_events Reader.MarginRegistry.get_deepbook_pool_registered
    Reader.MarginRegistry.get_deepbook_pool_updated_registry
    Reader.MarginRegistry.get_deepbook_pool_config_updated
respond-results margin_manager_created t now params m = refl
respond-results loan_borrowed t now params m = refl
respond-results loan_repaid t now params m = refl
respond-results liquidation t now params m = refl
respond-results asset_supplied t now params m = refl
respond-results asset_withdrawn t now params m = refl
respond-results deepbook_pool_updated t now params m = refl
respond-results interest_params_updated t now params m = refl
respond-results margin_pool_config_updated t now params m = refl
respond-results maintainer_cap_updated t now params m = refl
respond-results maintainer_fees_withdrawn t now params m = refl
respond-results protocol_fees_withdrawn t now params m = refl
respond-results supplier_cap_minted t now params m = refl
respond-results supply_referral_minted t now params m = refl
respond-results pause_cap_updated t now params m = refl
respond-results protocol_fees_increased t now params m = refl
respond-results referral_fees_claimed t now params m = refl
respond-results referral_fee_events t now params m = refl
respond-results deepbook_pool_registered t now params m = refl
respond-results deepbook_pool_updated_registry t now params m = refl
respond-results deepbook_pool_config_updated t now params m = refl

-- A successful answer of any of the 21 endpoints of margin events that take a time range is the
-- newest rows that the request asks for. They and the rest are exactly the rows of the route's table
-- whose checkpoint time lies between the start and the end of the request, both included, and whose
-- columns fit every filter that is given; they come newest first, are at most `limit` many, no row
-- of the rest is newer than one of them, and there is a rest only if the limit is reached. One
-- succeeded query is counted, and nothing else.
pub respond-IsLatest :
    (r : Route) (t : Table (RowOf r)) (now : ℤ) (params : Params) (m m' : RpcMetrics)
    (found : List (RowOf r))
    → respond r t now params m ≡ (ok found, m')
    → IsLatest
        (wanted_rows t (time_of r) (columns_of r) now params)
        (time_of r)
        (limit params)
        found
      × (m' ≡ succeeded m)
respond-IsLatest r t now params m m' found h =
    let query : Query (RowOf r) = event_query (time_of r) (columns_of r) now params in
    let h' = sym (respond-results r t now params m) ∙ h in
    (
      results-IsLatest t (time_of r) (columns_of r) now params m m' found h',
      (results-eq-ok t query m m' found h').1,
    )

-- A failed request for margin events is answered with status 500. Either the connection failed, and no
-- query is counted, or the query failed, and one failed query is counted.
pub respond-fails :
    (r : Route) (t : Table (RowOf r)) (now : ℤ) (params : Params) (m m' : RpcMetrics)
    (e : DeepBookError)
    → respond r t now params m ≡ (err e, m')
    → ((into_response e).status ≡ 500)
      × (((text : String) × (t.connect ≡ err text) × (m' ≡ m))
          ⊎ ((text : String) × (t.connect ≡ ok tt)
              × (t.get_results (event_query (time_of r) (columns_of r) now params) ≡ err text)
              × (m' ≡ failed m)))
unfolding results into_response
respond-fails r t now params m m' e h =
    let query : Query (RowOf r) = event_query (time_of r) (columns_of r) now params in
    elim (counted-eq-err internal t.connect (t.get_results query) m m' e
      (sym (respond-results r t now params m) ∙ h)) [
        | inl (text, refused, same, kept) ↦ (rw same refl, inl (text, refused, kept))
        | inr (text, open_, lost, same, one) ↦ (rw same refl, inr (text, open_, lost, one))
      ]
