-- ===== src/Indexer/Event/Vault.antt =====
-- deepbookv3/crates/indexer/src/models.rs: the Move events of the module `vault`.
use rain_protocol.Prelude.{ℕ, String}
use rain_protocol.Indexer.Sdk.{Bytes}

pub record FlashLoanBorrowed : Type 0 where
  pub pool_id : Bytes
  pub borrow_quantity : ℕ
  pub type_name : String
