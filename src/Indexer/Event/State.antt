-- ===== src/Indexer/Event/State.antt =====
-- deepbookv3/crates/indexer/src/models.rs: the Move events of the module `state`.
use rain_protocol.Prelude.{ℕ, Bool, Option}
use rain_protocol.Indexer.Sdk.{Bytes}

pub record VoteEvent : Type 0 where
  pub pool_id : Bytes
  pub balance_manager_id : Bytes
  pub epoch : ℕ
  pub from_proposal_id : Option Bytes
  pub to_proposal_id : Bytes
  pub stake : ℕ

pub record StakeEvent : Type 0 where
  pub pool_id : Bytes
  pub balance_manager_id : Bytes
  pub epoch : ℕ
  pub amount : ℕ
  pub stake : Bool

pub record RebateEvent : Type 0 where
  pub pool_id : Bytes
  pub balance_manager_id : Bytes
  pub epoch : ℕ
  pub claim_amount : ℕ

pub record ProposalEvent : Type 0 where
  pub pool_id : Bytes
  pub balance_manager_id : Bytes
  pub epoch : ℕ
  pub taker_fee : ℕ
  pub maker_fee : ℕ
  pub stake_required : ℕ
