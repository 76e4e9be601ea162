-- ===== src/Indexer/Event/MarginManager.antt =====
-- deepbookv3/crates/indexer/src/models.rs: the Move events of the module `margin_manager`.
use rain_protocol.Prelude.{ℕ, Bool}
use rain_protocol.Indexer.Sdk.{Bytes}
use rain_protocol.Indexer.Event.TypeName.{TypeName}

pub record MarginManagerCreatedEvent : Type 0 where
  pub margin_manager_id : Bytes
  pub balance_manager_id : Bytes
  pub deepbook_pool_id : Bytes
  pub owner : Bytes
  pub timestamp : ℕ

pub record LoanBorrowedEvent : Type 0 where
  pub margin_manager_id : Bytes
  pub margin_pool_id : Bytes
  pub loan_amount : ℕ
  pub loan_shares : ℕ
  pub timestamp : ℕ

pub record LoanRepaidEvent : Type 0 where
  pub margin_manager_id : Bytes
  pub margin_pool_id : Bytes
  pub repay_amount : ℕ
  pub repay_shares : ℕ
  pub timestamp : ℕ

pub record LiquidationEvent : Type 0 where
  pub margin_manager_id : Bytes
  pub margin_pool_id : Bytes
  pub liquidation_amount : ℕ
  pub pool_reward : ℕ
  pub pool_default : ℕ
  pub risk_ratio : ℕ
  pub remaining_base_asset : ℕ
  pub remaining_quote_asset : ℕ
  pub remaining_base_debt : ℕ
  pub remaining_quote_debt : ℕ
  pub base_pyth_price : ℕ
  pub base_pyth_decimals : ℕ
  pub quote_pyth_price : ℕ
  pub quote_pyth_decimals : ℕ
  pub timestamp : ℕ

pub record DepositCollateralEvent : Type 0 where
  pub margin_manager_id : Bytes
  pub amount : ℕ
  pub asset : TypeName
  pub pyth_price : ℕ
  pub pyth_decimals : ℕ
  pub timestamp : ℕ

pub record WithdrawCollateralEvent : Type 0 where
  pub margin_manager_id : Bytes
  pub amount : ℕ
  pub asset : TypeName
  pub withdraw_base_asset : Bool
  pub remaining_base_asset : ℕ
  pub remaining_quote_asset : ℕ
  pub remaining_base_debt : ℕ
  pub remaining_quote_debt : ℕ
  pub base_pyth_price : ℕ
  pub base_pyth_decimals : ℕ
  pub quote_pyth_price : ℕ
  pub quote_pyth_decimals : ℕ
  pub timestamp : ℕ
