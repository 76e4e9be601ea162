-- ===== src/Indexer/Event/Governance.antt =====
-- deepbookv3/crates/indexer/src/models.rs: the Move events of the module `governance`.
use rain_protocol.Prelude.{ℕ}

pub record TradeParamsUpdateEvent : Type 0 where
  pub taker_fee : ℕ
  pub maker_fee : ℕ
  pub stake_required : ℕ
