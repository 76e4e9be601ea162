-- ===== src/Schema/Row/Governance.antt =====
-- deepbookv3/crates/schema/src/models.rs: rows of the database tables.
use rain_protocol.Prelude.{String, Bool, Option}
use rain_protocol.Prelude.Int.{ℤ}

pub record Proposals : Type 0 where
  pub event_digest : String
  pub digest : String
  pub sender : String
  pub checkpoint : ℤ
  pub checkpoint_timestamp_ms : ℤ
  pub package_id : String
  pub pool_id : String
  pub balance_manager_id : String
  pub epoch : ℤ
  pub taker_fee : ℤ
  pub maker_fee : ℤ
  pub stake_required : ℤ

pub record Rebates : Type 0 where
  pub event_digest : String
  pub digest : String
  pub sender : String
  pub checkpoint : ℤ
  pub checkpoint_timestamp_ms : ℤ
  pub package_id : String
  pub pool_id : String
  pub balance_manager_id : String
  pub epoch : ℤ
  pub claim_amount : ℤ

pub record Stakes : Type 0 where
  pub event_digest : String
  pub digest : String
  pub sender : String
  pub checkpoint : ℤ
  pub checkpoint_timestamp_ms : ℤ
  pub package_id : String
  pub pool_id : String
  pub balance_manager_id : String
  pub epoch : ℤ
  pub amount : ℤ
  pub stake : Bool

pub record TradeParamsUpdate : Type 0 where
  pub event_digest : String
  pub digest : String
  pub sender : String
  pub checkpoint : ℤ
  pub checkpoint_timestamp_ms : ℤ
  pub package_id : String
  pub pool_id : String
  pub taker_fee : ℤ
  pub maker_fee : ℤ
  pub stake_required : ℤ

pub record Votes : Type 0 where
  pub event_digest : String
  pub digest : String
  pub sender : String
  pub checkpoint : ℤ
  pub checkpoint_timestamp_ms : ℤ
  pub package_id : String
  pub pool_id : String
  pub balance_manager_id : String
  pub epoch : ℤ
  pub from_proposal_id : Option String
  pub to_proposal_id : String
  pub stake : ℤ
