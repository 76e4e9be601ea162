-- ===== src/Indexer/Sdk.antt =====
-- What the indexer calls in crates outside the repository (sui_types, sui_sdk_types, hex): the
-- parsers and printers of addresses, as one record that every definition using them takes.
use rain_protocol.Prelude.{ℕ, String, Option, List}
use rain_protocol.Prelude.Json.{Json}

-- The bytes of an address, an object id, or an encoded event.
abbrev pub Bytes : Type 0
Bytes = List ℕ

pub record Sdk : Type 0 where
  -- `hex::decode`.
  pub hex_decode : String → Option Bytes
  -- `AccountAddress::from_str` and `ObjectID::from_str`.
  pub account_address_from_str : String → Option Bytes
  pub object_id_from_str : String → Option Bytes
  -- `to_string` of an `ObjectID` and of an `Address`.
  pub object_id_to_string : Bytes → String
  pub address_to_string : Bytes → String
  -- `ObjectID::to_hex_uncompressed`.
  pub object_id_to_hex_uncompressed : Bytes → String
  -- The JSON of an `ObjectID` and of a `VecMap<String, u64>`.
  pub object_id_to_value : Bytes → Json
  pub vec_map_to_value : List (String × ℕ) → Json
