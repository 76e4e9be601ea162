-- ===== src/Indexer/Handlers/Keys.antt =====
-- The primary keys of the rows that the handlers produce (deepbookv3/crates/indexer/src/handlers).
use rain_protocol.Prelude.{refl}
use rain_protocol.Indexer.Sdk.{Sdk}
use rain_protocol.Indexer.Process.Digests.{IsKeyed}
use rain_protocol.Indexer.Handlers.MarginPool.{
  asset_supplied_handler, asset_withdrawn_handler, deepbook_pool_updated_handler,
}
use rain_protocol.Indexer.Handlers.BalanceManager.{balances_handler}
use rain_protocol.Indexer.Handlers.Tpsl.{
  conditional_order_added_handler, conditional_order_cancelled_handler,
  conditional_order_executed_handler, conditional_order_insufficient_funds_handler,
}
use rain_protocol.Indexer.Handlers.MarginRegistry.{
  deepbook_pool_updated_registry_handler, maintainer_cap_updated_handler, pause_cap_updated_handler,
}
use rain_protocol.Indexer.Handlers.Collateral.{
  deposit_collateral_handler, withdraw_collateral_handler,
}
use rain_protocol.Indexer.Handlers.Vault.{flash_loan_handler}
use rain_protocol.Indexer.Handlers.MarginManager.{
  liquidation_handler, loan_borrowed_handler, loan_repaid_handler, margin_manager_created_handler,
}
use rain_protocol.Indexer.Handlers.MarginPoolFees.{
  maintainer_fees_withdrawn_handler, protocol_fees_withdrawn_handler, supplier_cap_minted_handler,
  supply_referral_minted_handler,
}
use rain_protocol.Indexer.Handlers.OrderInfo.{order_fill_handler}
use rain_protocol.Indexer.Handlers.DeepPrice.{pool_price_handler}
use rain_protocol.Indexer.Handlers.State.{
  proposals_handler, rebates_handler, stakes_handler, votes_handler,
}
use rain_protocol.Indexer.Handlers.ProtocolFees.{
  protocol_fees_increased_handler, referral_fees_claimed_handler,
}
use rain_protocol.Indexer.Handlers.Pool.{referral_fee_event_handler}
use rain_protocol.Indexer.Handlers.Config.{
  interest_params_updated_handler, margin_pool_config_updated_handler, margin_pool_created_handler,
  deepbook_pool_config_updated_handler, deepbook_pool_registered_handler,
}
use rain_protocol.Indexer.Handlers.PoolEvents.{pool_created_handler, deep_burned_handler}

-- The 38 handlers of one event type each.
abbrev pub HandlersAreKeyed : Sdk → Type 0
HandlersAreKeyed sdk =
    IsKeyed (asset_supplied_handler sdk)
    × IsKeyed (asset_withdrawn_handler sdk)
    × IsKeyed (deepbook_pool_updated_handler sdk)
    × IsKeyed (balances_handler sdk)
    × IsKeyed (conditional_order_added_handler sdk)
    × IsKeyed (conditional_order_cancelled_handler sdk)
    × IsKeyed (conditional_order_executed_handler sdk)
    × IsKeyed (conditional_order_insufficient_funds_handler sdk)
    × IsKeyed (deepbook_pool_updated_registry_handler sdk)
    × IsKeyed (maintainer_cap_updated_handler sdk)
    × IsKeyed (pause_cap_updated_handler sdk)
    × IsKeyed (deposit_collateral_handler sdk)
    × IsKeyed (withdraw_collateral_handler sdk)
    × IsKeyed (flash_loan_handler sdk)
    × IsKeyed (liquidation_handler sdk)
    × IsKeyed (loan_borrowed_handler sdk)
    × IsKeyed (loan_repaid_handler sdk)
    × IsKeyed (margin_manager_created_handler sdk)
    × IsKeyed (maintainer_fees_withdrawn_handler sdk)
    × IsKeyed (protocol_fees_withdrawn_handler sdk)
    × IsKeyed (supplier_cap_minted_handler sdk)
    × IsKeyed (supply_referral_minted_handler sdk)
    × IsKeyed (order_fill_handler sdk)
    × IsKeyed (pool_price_handler sdk)
    × IsKeyed (proposals_handler sdk)
    × IsKeyed (rebates_handler sdk)
    × IsKeyed (stakes_handler sdk)
    × IsKeyed (votes_handler sdk)
    × IsKeyed (protocol_fees_increased_handler sdk)
    × IsKeyed (referral_fees_claimed_handler sdk)
    × IsKeyed (referral_fee_event_handler sdk)
    × IsKeyed (pool_created_handler sdk)
    × IsKeyed (deep_burned_handler sdk)
    × IsKeyed (interest_params_updated_handler sdk)
    × IsKeyed (margin_pool_config_updated_handler sdk)
    × IsKeyed (margin_pool_created_handler sdk)
    × IsKeyed (deepbook_pool_config_updated_handler sdk)
    × IsKeyed (deepbook_pool_registered_handler sdk)

-- Each of these 38 handlers keys its rows by the digest of their event.
pub handlers-IsKeyed : (sdk : Sdk) → HandlersAreKeyed sdk
unfolding asset_supplied_handler asset_withdrawn_handler interest_params_updated_handler
    margin_pool_config_updated_handler margin_pool_created_handler
    deepbook_pool_config_updated_handler deepbook_pool_registered_handler
    deepbook_pool_updated_handler balances_handler conditional_order_added_handler
    conditional_order_cancelled_handler conditional_order_executed_handler
    conditional_order_insufficient_funds_handler deepbook_pool_updated_registry_handler
    maintainer_cap_updated_handler pause_cap_updated_handler deposit_collateral_handler
    withdraw_collateral_handler flash_loan_handler liquidation_handler loan_borrowed_handler
    loan_repaid_handler margin_manager_created_handler maintainer_fees_withdrawn_handler
    protocol_fees_withdrawn_handler supplier_cap_minted_handler supply_referral_minted_handler
    order_fill_handler pool_price_handler proposals_handler rebates_handler stakes_handler
    votes_handler protocol_fees_increased_handler referral_fees_claimed_handler
    referral_fee_event_handler pool_created_handler deep_burned_handler
handlers-IsKeyed sdk = (
  λ event meta. refl,
  λ event meta. refl,
  λ event meta. refl,
  λ event meta. refl,
  λ event meta. refl,
  λ event meta. refl,
  λ event meta. refl,
  λ event meta. refl,
  λ event meta. refl,
  λ event meta. refl,
  λ event meta. refl,
  λ event meta. refl,
  λ event meta. refl,
  λ event meta. refl,
  λ event meta. refl,
  λ event meta. refl,
  λ event meta. refl,
  λ event meta. refl,
  λ event meta. refl,
  λ event meta. refl,
  λ event meta. refl,
  λ event meta. refl,
  λ event meta. refl,
  λ event meta. refl,
  λ event meta. refl,
  λ event meta. refl,
  λ event meta. refl,
  λ event meta. refl,
  λ event meta. refl,
  λ event meta. refl,
  λ event meta. refl,
  λ event meta. refl,
  λ event meta. refl,
  λ event meta. refl,
  λ event meta. refl,
  λ event meta. refl,
  λ event meta. refl,
  λ event meta. refl,
)
