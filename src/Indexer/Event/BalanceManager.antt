-- ===== src/Indexer/Event/BalanceManager.antt =====
-- deepbookv3/crates/indexer/src/models.rs: the Move events of the module `balance_manager`.
use rain_protocol.Prelude.{ℕ, String, Bool}
use rain_protocol.Indexer.Sdk.{Bytes}

pub record BalanceEvent : Type 0 where
  pub balance_manager_id : Bytes
  pub asset : String
  pub amount : ℕ
  pub deposit : Bool
