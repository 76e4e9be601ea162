-- ===== src/Indexer/Event/DeepPrice.antt =====
-- deepbookv3/crates/indexer/src/models.rs: the Move events of the module `deep_price`.
use rain_protocol.Prelude.{ℕ, Bool}
use rain_protocol.Indexer.Sdk.{Bytes}

pub record PriceAdded : Type 0 where
  pub conversion_rate : ℕ
  pub timestamp : ℕ
  pub is_base_conversion : Bool
  pub reference_pool : Bytes
  pub target_pool : Bytes
