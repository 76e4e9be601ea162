-- ===== src/Indexer/Handlers/State.antt =====
-- deepbookv3/crates/indexer/src/handlers: proposals_handler.rs, rebates_handler.rs,
--   stakes_handler.rs, vote_handler.rs.
use rain_protocol.Prelude.Words.{as_i64}
use mathlib.Core.Option
use rain_protocol.Indexer.Sdk.{Sdk}
use rain_protocol.Indexer.Chain.{event_digest}
use rain_protocol.Indexer.Handler.{Handler}
use rain_protocol.Indexer.Event
use rain_protocol.Schema.Row

module _ (sdk : Sdk) where
  unfoldable pub proposals_handler : Handler Event.State.ProposalEvent Row.Governance.Proposals
  unfolding event_digest
  proposals_handler = record {
    processor_name = "proposals";
    module_name = "state";
    event_name = "ProposalEvent";
    table = "proposals";
    key = λ row. row.event_digest;
    map_event = λ event meta. record {
      event_digest = event_digest meta;
      digest = meta.digest;
      sender = meta.sender;
      checkpoint = meta.checkpoint;
      checkpoint_timestamp_ms = meta.checkpoint_timestamp_ms;
      package_id = meta.package_id;
      pool_id = sdk.object_id_to_string event.pool_id;
      balance_manager_id = sdk.object_id_to_string event.balance_manager_id;
      epoch = as_i64 event.epoch;
      taker_fee = as_i64 event.taker_fee;
      maker_fee = as_i64 event.maker_fee;
      stake_required = as_i64 event.stake_required;
    };
  }

  unfoldable pub rebates_handler : Handler Event.State.RebateEvent Row.Governance.Rebates
  unfolding event_digest
  rebates_handler = record {
    processor_name = "rebates";
    module_name = "state";
    event_name = "RebateEvent";
    table = "rebates";
    key = λ row. row.event_digest;
    map_event = λ event meta. record {
      event_digest = event_digest meta;
      digest = meta.digest;
      sender = meta.sender;
      checkpoint = meta.checkpoint;
      checkpoint_timestamp_ms = meta.checkpoint_timestamp_ms;
      package_id = meta.package_id;
      pool_id = sdk.object_id_to_string event.pool_id;
      balance_manager_id = sdk.object_id_to_string event.balance_manager_id;
      epoch = as_i64 event.epoch;
      claim_amount = as_i64 event.claim_amount;
    };
  }

  unfoldable pub stakes_handler : Handler Event.State.StakeEvent Row.Governance.Stakes
  unfolding event_digest
  stakes_handler = record {
    processor_name = "stakes";
    module_name = "state";
    event_name = "StakeEvent";
    table = "stakes";
    key = λ row. row.event_digest;
    map_event = λ event meta. record {
      event_digest = event_digest meta;
      digest = meta.digest;
      sender = meta.sender;
      checkpoint = meta.checkpoint;
      checkpoint_timestamp_ms = meta.checkpoint_timestamp_ms;
      package_id = meta.package_id;
      pool_id = sdk.object_id_to_string event.pool_id;
      balance_manager_id = sdk.object_id_to_string event.balance_manager_id;
      epoch = as_i64 event.epoch;
      amount = as_i64 event.amount;
      stake = event.stake;
    };
  }

  unfoldable pub votes_handler : Handler Event.State.VoteEvent Row.Governance.Votes
  unfolding event_digest
  votes_handler = record {
    processor_name = "votes";
    module_name = "state";
    event_name = "VoteEvent";
    table = "votes";
    key = λ row. row.event_digest;
    map_event = λ event meta. record {
      event_digest = event_digest meta;
      digest = meta.digest;
      sender = meta.sender;
      checkpoint = meta.checkpoint;
      checkpoint_timestamp_ms = meta.checkpoint_timestamp_ms;
      package_id = meta.package_id;
      pool_id = sdk.object_id_to_string event.pool_id;
      balance_manager_id = sdk.object_id_to_string event.balance_manager_id;
      epoch = as_i64 event.epoch;
      from_proposal_id = Option.map sdk.object_id_to_string event.from_proposal_id;
      to_proposal_id = sdk.object_id_to_string event.to_proposal_id;
      stake = as_i64 event.stake;
    };
  }
