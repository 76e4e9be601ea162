-- ===== src/Server/Events/Route.antt =====
-- deepbookv3/crates/server/src/server.rs, `make_router`: the routes of the margin events that take a
-- time range, a limit and filters. A route stands for its handler; `Route.loan_repaid` is
-- `LOAN_REPAID_PATH`.
use rain_protocol.Prelude.Int.{ℤ}
use rain_protocol.Server.Params.{Params}
use rain_protocol.Server.Reader.{Table, RpcMetrics, Answer}
use rain_protocol.Server.Events
use rain_protocol.Schema.Row.MarginManager.{
  MarginManagerCreated, LoanBorrowed, LoanRepaid, Liquidation,
}
use rain_protocol.Schema.Row.MarginPool.{
  AssetSupplied, AssetWithdrawn, DeepbookPoolUpdated, MaintainerFeesWithdrawn,
  ProtocolFeesWithdrawn, SupplierCapMinted, SupplyReferralMinted, ProtocolFeesIncreasedEvent,
  ReferralFeesClaimedEvent,
}
use rain_protocol.Schema.Row.Config.{
  InterestParamsUpdated, MarginPoolConfigUpdated, DeepbookPoolRegistered, DeepbookPoolConfigUpdated,
}
use rain_protocol.Schema.Row.MarginRegistry.{
  MaintainerCapUpdated, PauseCapUpdated, DeepbookPoolUpdatedRegistry,
}
use rain_protocol.Schema.Row.Trading.{ReferralFeeEvent}

pub data Route : Type 0 where
  margin_manager_created loan_borrowed loan_repaid liquidation asset_supplied asset_withdrawn
        deepbook_pool_updated interest_params_updated margin_pool_config_updated
        maintainer_cap_updated maintainer_fees_withdrawn protocol_fees_withdrawn supplier_cap_minted
        supply_referral_minted pause_cap_updated protocol_fees_increased referral_fees_claimed
        referral_fee_events deepbook_pool_registered deepbook_pool_updated_registry
        deepbook_pool_config_updated :
      Route

-- The rows that a route returns.
abbrev pub RowOf : Route → Type 0
RowOf margin_manager_created = MarginManagerCreated
RowOf loan_borrowed = LoanBorrowed
RowOf loan_repaid = LoanRepaid
RowOf liquidation = Liquidation
RowOf asset_supplied = AssetSupplied
RowOf asset_withdrawn = AssetWithdrawn
RowOf deepbook_pool_updated = DeepbookPoolUpdated
RowOf interest_params_updated = InterestParamsUpdated
RowOf margin_pool_config_updated = MarginPoolConfigUpdated
RowOf maintainer_cap_updated = MaintainerCapUpdated
RowOf maintainer_fees_withdrawn = MaintainerFeesWithdrawn
RowOf protocol_fees_withdrawn = ProtocolFeesWithdrawn
RowOf supplier_cap_minted = SupplierCapMinted
RowOf supply_referral_minted = SupplyReferralMinted
RowOf pause_cap_updated = PauseCapUpdated
RowOf protocol_fees_increased = ProtocolFeesIncreasedEvent
RowOf referral_fees_claimed = ReferralFeesClaimedEvent
RowOf referral_fee_events = ReferralFeeEvent
RowOf deepbook_pool_registered = DeepbookPoolRegistered
RowOf deepbook_pool_updated_registry = DeepbookPoolUpdatedRegistry
RowOf deepbook_pool_config_updated = DeepbookPoolConfigUpdated

-- The handler of each route.
unfoldable pub respond : (r : Route) → Table (RowOf r) → ℤ → Params → RpcMetrics → Answer (RowOf r)
unfolding Events.MarginManager.margin_manager_created Events.MarginManager.loan_borrowed
    Events.MarginManager.loan_repaid Events.MarginManager.liquidation
    Events.MarginPool.asset_supplied Events.MarginPool.asset_withdrawn
    Events.MarginPool.deepbook_pool_updated Events.MarginPool.interest_params_updated
    Events.MarginPool.margin_pool_config_updated Events.MarginRegistry.maintainer_cap_updated
    Events.MarginFees.maintainer_fees_withdrawn Events.MarginFees.protocol_fees_withdrawn
    Events.MarginFees.supplier_cap_minted Events.MarginFees.supply_referral_minted
    Events.MarginRegistry.pause_cap_updated Events.MarginFees.protocol_fees_increased
    Events.MarginFees.referral_fees_claimed Events.MarginFees.referral_fee_events
    Events.MarginRegistry.deepbook_pool_registered
    Events.MarginRegistry.deepbook_pool_updated_registry
    Events.MarginRegistry.deepbook_pool_config_updated
respond margin_manager_created t now params m =
    Events.MarginManager.margin_manager_created t now params m
respond loan_borrowed t now params m = Events.MarginManager.loan_borrowed t now params m
respond loan_repaid t now params m = Events.MarginManager.loan_repaid t now params m
respond liquidation t now params m = Events.MarginManager.liquidation t now params m
respond asset_supplied t now params m = Events.MarginPool.asset_supplied t now params m
respond asset_withdrawn t now params m = Events.MarginPool.asset_withdrawn t now params m
respond deepbook_pool_updated t now params m =
    Events.MarginPool.deepbook_pool_updated t now params m
respond interest_params_updated t now params m =
    Events.MarginPool.interest_params_updated t now params m
respond margin_pool_config_updated t now params m =
    Events.MarginPool.margin_pool_config_updated t now params m
respond maintainer_cap_updated t now params m =
    Events.MarginRegistry.maintainer_cap_updated t now params m
respond maintainer_fees_withdrawn t now params m =
    Events.MarginFees.maintainer_fees_withdrawn t now params m
respond protocol_fees_withdrawn t now params m =
    Events.MarginFees.protocol_fees_withdrawn t now params m
respond supplier_cap_minted t now params m = Events.MarginFees.supplier_cap_minted t now params m
respond supply_referral_minted t now params m =
    Events.MarginFees.supply_referral_minted t now params m
respond pause_cap_updated t now params m = Events.MarginRegistry.pause_cap_updated t now params m
respond protocol_fees_increased t now params m =
    Events.MarginFees.protocol_fees_increased t now params m
respond referral_fees_claimed t now params m =
    Events.MarginFees.referral_fees_claimed t now params m
respond referral_fee_events t now params m = Events.MarginFees.referral_fee_events t now params m
respond deepbook_pool_registered t now params m =
    Events.MarginRegistry.deepbook_pool_registered t now params m
respond deepbook_pool_updated_registry t now params m =
    Events.MarginRegistry.deepbook_pool_updated_registry t now params m
respond deepbook_pool_config_updated t now params m =
    Events.MarginRegistry.deepbook_pool_config_updated t now params m
