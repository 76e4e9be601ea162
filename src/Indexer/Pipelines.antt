-- ===== src/Indexer/Pipelines.antt =====
-- deepbookv3/crates/indexer/src/main.rs: which handlers run. The indexing framework is an interface.
pub mod Laws
use rain_protocol.Prelude.{◌≡◌, String, List, [], ◌∷◌, Among}
use rain_protocol.Prelude.Result.{Result, ok, err, ◌>>=◌}
use rain_protocol.Indexer.Sdk.{Sdk}
use rain_protocol.Indexer.Handlers.BalanceManager.{balances_handler}
use rain_protocol.Indexer.Handlers.PoolEvents.{deep_burned_handler}
use rain_protocol.Indexer.Handlers.Vault.{flash_loan_handler}
use rain_protocol.Indexer.Handlers.OrderInfo.{order_fill_handler}
use rain_protocol.Indexer.Handlers.DeepPrice.{pool_price_handler}
use rain_protocol.Indexer.Handlers.State.{
  proposals_handler, rebates_handler, stakes_handler, votes_handler,
}
use rain_protocol.Indexer.Handlers.Pool.{referral_fee_event_handler}
use rain_protocol.Indexer.Handlers.MarginManager.{
  margin_manager_created_handler, loan_borrowed_handler, loan_repaid_handler, liquidation_handler,
}
use rain_protocol.Indexer.Handlers.MarginPool.{
  asset_supplied_handler, asset_withdrawn_handler, deepbook_pool_updated_handler,
}
use rain_protocol.Indexer.Handlers.Config.{
  margin_pool_created_handler, interest_params_updated_handler, margin_pool_config_updated_handler,
  deepbook_pool_registered_handler, deepbook_pool_config_updated_handler,
}
use rain_protocol.Indexer.Handlers.MarginRegistry.{
  maintainer_cap_updated_handler, deepbook_pool_updated_registry_handler, pause_cap_updated_handler,
}
use rain_protocol.Indexer.Handlers.MarginPoolFees.{
  maintainer_fees_withdrawn_handler, protocol_fees_withdrawn_handler, supplier_cap_minted_handler,
  supply_referral_minted_handler,
}
use rain_protocol.Indexer.Handlers.ProtocolFees.{
  protocol_fees_increased_handler, referral_fees_claimed_handler,
}
use rain_protocol.Indexer.Handlers.Collateral.{
  deposit_collateral_handler, withdraw_collateral_handler,
}
use rain_protocol.Indexer.Handlers.Tpsl.{
  conditional_order_added_handler, conditional_order_cancelled_handler,
  conditional_order_executed_handler, conditional_order_insufficient_funds_handler,
}
use rain_protocol.Indexer.TradeParams.{trade_params_update_handler}

pub data Package : Type 0 where
  deepbook deepbook_margin : Package

-- `OrderUpdateHandler::NAME`.
abbrev pub order_update_name : String
order_update_name = "order_update"

-- The framework's state is the names of the pipelines that were added.
pub record Framework : Type 1 where
  pub State : Type 0
  pub added : State → List String
  -- `concurrent_pipeline(handler, Default::default())`, by the handler's name.
  pub concurrent_pipeline : String → State → Result State String
  -- A name that is new is added.
  pub adds :
      (name : String) (s : State)
      → ¬ Among name (added s)
      → (s' : State) × (concurrent_pipeline name s ≡ ok s') × (added s' ≡ name ∷ added s)

module _ (sdk : Sdk) where
  -- The names of the handlers that one package registers, in their order.
  unfoldable pub handlers_of : Package → List String
  unfolding balances_handler deep_burned_handler flash_loan_handler order_fill_handler
      pool_price_handler proposals_handler rebates_handler referral_fee_event_handler stakes_handler
      votes_handler margin_manager_created_handler loan_borrowed_handler loan_repaid_handler
      liquidation_handler asset_supplied_handler asset_withdrawn_handler margin_pool_created_handler
      deepbook_pool_updated_handler interest_params_updated_handler
      margin_pool_config_updated_handler maintainer_cap_updated_handler
      deepbook_pool_registered_handler deepbook_pool_updated_registry_handler
      deepbook_pool_config_updated_handler maintainer_fees_withdrawn_handler
      protocol_fees_withdrawn_handler supplier_cap_minted_handler supply_referral_minted_handler
      pause_cap_updated_handler protocol_fees_increased_handler referral_fees_claimed_handler
      deposit_collateral_handler withdraw_collateral_handler conditional_order_added_handler
      conditional_order_cancelled_handler conditional_order_executed_handler
      conditional_order_insufficient_funds_handler trade_params_update_handler
  handlers_of deepbook =
      (balances_handler sdk).processor_name
      ∷ (deep_burned_handler sdk).processor_name
      ∷ (flash_loan_handler sdk).processor_name
      ∷ (order_fill_handler sdk).processor_name
      ∷ order_update_name
      ∷ (pool_price_handler sdk).processor_name
      ∷ (proposals_handler sdk).processor_name
      ∷ (rebates_handler sdk).processor_name
      ∷ (referral_fee_event_handler sdk).processor_name
      ∷ (stakes_handler sdk).processor_name
      ∷ (trade_params_update_handler sdk "").processor_name
      ∷ (votes_handler sdk).processor_name
      ∷ []
  handlers_of deepbook_margin =
      (margin_manager_created_handler sdk).processor_name
      ∷ (loan_borrowed_handler sdk).processor_name
      ∷ (loan_repaid_handler sdk).processor_name
      ∷ (liquidation_handler sdk).processor_name
      ∷ (asset_supplied_handler sdk).processor_name
      ∷ (asset_withdrawn_handler sdk).processor_name
      ∷ (margin_pool_created_handler sdk).processor_name
      ∷ (deepbook_pool_updated_handler sdk).processor_name
      ∷ (interest_params_updated_handler sdk).processor_name
      ∷ (margin_pool_config_updated_handler sdk).processor_name
      ∷ (maintainer_cap_updated_handler sdk).processor_name
      ∷ (deepbook_pool_registered_handler sdk).processor_name
      ∷ (deepbook_pool_updated_registry_handler sdk).processor_name
      ∷ (deepbook_pool_config_updated_handler sdk).processor_name
      ∷ (maintainer_fees_withdrawn_handler sdk).processor_name
      ∷ (protocol_fees_withdrawn_handler sdk).processor_name
      ∷ (supplier_cap_minted_handler sdk).processor_name
      ∷ (supply_referral_minted_handler sdk).processor_name
      ∷ (pause_cap_updated_handler sdk).processor_name
      ∷ (protocol_fees_increased_handler sdk).processor_name
      ∷ (referral_fees_claimed_handler sdk).processor_name
      ∷ (deposit_collateral_handler sdk).processor_name
      ∷ (withdraw_collateral_handler sdk).processor_name
      ∷ (conditional_order_added_handler sdk).processor_name
      ∷ (conditional_order_cancelled_handler sdk).processor_name
      ∷ (conditional_order_executed_handler sdk).processor_name
      ∷ (conditional_order_insufficient_funds_handler sdk).processor_name
      ∷ []

  module _ (f : Framework) where
    open f use {State, concurrent_pipeline}

    unfoldable pub add_pipelines : List String → State → Result State String
    add_pipelines [] s = ok s
    add_pipelines (name ∷ rest) s = do s' ← concurrent_pipeline name s; add_pipelines rest s'

    -- `for package in &packages`.
    unfoldable pub register : List Package → State → Result State String
    unfolding add_pipelines handlers_of
    register [] s = ok s
    register (selected ∷ rest) s = do s' ← add_pipelines (handlers_of selected) s; register rest s'
