-- ===== src/Indexer/Handler.antt =====
-- What one use of the macro `define_handler!` fixes (deepbookv3/crates/indexer/src/handlers/mod.rs):
-- the processor's name, the Move event by module and name, the table, and the row of an event.
use rain_protocol.Prelude.{String}
use rain_protocol.Indexer.Chain.{EventMeta}

pub record Handler (E R : Type 0) : Type 0 where
  pub processor_name : String
  pub module_name : String
  pub event_name : String
  pub table : String
  -- The table's primary key, as the schema declares it.
  pub key : R → String
  pub map_event : E → EventMeta → R
