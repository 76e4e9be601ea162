-- ===== src/Indexer/Event/ProtocolFees.antt =====
-- deepbookv3/crates/indexer/src/models.rs: the Move events of the module `protocol_fees`.
use rain_protocol.Prelude.{ℕ}
use rain_protocol.Indexer.Sdk.{Bytes}

pub record ProtocolFeesIncreasedEvent : Type 0 where
  pub margin_pool_id : Bytes
  pub total_shares : ℕ
  pub referral_fees : ℕ
  pub maintainer_fees : ℕ
  pub protocol_fees : ℕ

pub record ReferralFeesClaimedEvent : Type 0 where
  pub referral_id : Bytes
  pub owner : Bytes
  pub fees : ℕ
