-- ===== src/Indexer/Event/TypeName.antt =====
-- deepbookv3/crates/indexer/src/models.rs: the name of a Move type, as events carry it.
use rain_protocol.Prelude.{String}

pub record TypeName : Type 0 where
  pub name : String
