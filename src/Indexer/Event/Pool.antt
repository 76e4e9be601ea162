-- ===== src/Indexer/Event/Pool.antt =====
-- deepbookv3/crates/indexer/src/models.rs: the Move events of the module `pool`.
use rain_protocol.Prelude.{ℕ, Bool}
use rain_protocol.Indexer.Sdk.{Bytes}

pub record PoolCreated : Type 0 where
  pub pool_id : Bytes
  pub taker_fee : ℕ
  pub maker_fee : ℕ
  pub tick_size : ℕ
  pub lot_size : ℕ
  pub min_size : ℕ
  pub whitelisted_pool : Bool
  pub treasury_address : Bytes

pub record DeepBurned : Type 0 where
  pub pool_id : Bytes
  pub deep_burned : ℕ

pub record ReferralFeeEvent : Type 0 where
  pub pool_id : Bytes
  pub referral_id : Bytes
  pub base_fee : ℕ
  pub quote_fee : ℕ
  pub deep_fee : ℕ
