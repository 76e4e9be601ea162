-- ===== src/Tests/Sdk.antt =====
-- A concrete instance of the interface to the Sui crates, and a checkpoint with two transactions.
use Prim.Native.Char.{code}
use rain_protocol.Prelude.{
  map, ℕ, ◌+◌, ◌-◌, ◌*◌, String, ◌<>◌, true, List, [], ◌∷◌, Option, none, some, leb, if◌then◌else◌,
}
use rain_protocol.Prelude.Decimal.{show_ℕ}
use rain_protocol.Prelude.Json.{number, string, struct}
use rain_protocol.Indexer.Sdk.{Bytes, Sdk}
use rain_protocol.Indexer.MoveStruct.{parse_address_from_hex}
use rain_protocol.Indexer.Chain.{Event, move_call, ExecutedTransaction, Checkpoint}
use rain_protocol.Indexer.Event.BalanceManager.{BalanceEvent}

abbrev nibble : ℕ → ℕ
nibble c = if leb b'a' c then c - 87 else c - 48

unfoldable pub hex_decode : String → Option Bytes
hex_decode String.[] = some []
hex_decode (String.◌∷◌ c String.[]) = none
hex_decode (String.◌∷◌ c (String.◌∷◌ d s)) = elim (hex_decode s) [
  | none ↦ none
  | some rest ↦ some ((nibble (code c) * 16 + nibble (code d)) ∷ rest)
]

abbrev pub show_bytes : Bytes → String
show_bytes [] = ""
show_bytes (b ∷ rest) = show_ℕ b <> "." <> show_bytes rest

abbrev hex_only : Sdk
hex_only = record {
  hex_decode = hex_decode;
  account_address_from_str = hex_decode;
  object_id_from_str = hex_decode;
  object_id_to_string = show_bytes;
  address_to_string = show_bytes;
  object_id_to_hex_uncompressed = show_bytes;
  object_id_to_value = λ id. string (show_bytes id);
  vec_map_to_value = λ entries. struct (map (λ (key, value). (key, number value)) entries);
}

-- Both address parsers read what `parse_address_from_hex` reads.
abbrev pub test_sdk : Sdk
test_sdk = record hex_only {
  account_address_from_str = parse_address_from_hex hex_only;
  object_id_from_str = parse_address_from_hex hex_only;
}

-- The first DeepBook package of the main network, as bytes.
abbrev pub deepbook : Bytes
deepbook =
    0xb2 ∷ 0x9d ∷ 0x83 ∷ 0xc2 ∷ 0x6c ∷ 0xdd ∷ 0x2a ∷ 0x64 ∷ 0x95 ∷ 0x92 ∷ 0x63 ∷ 0xab ∷ 0xbc ∷ 0xfc
    ∷ 0x4a ∷ 0x69 ∷ 0x37 ∷ 0xf0 ∷ 0xc9 ∷ 0xfc ∷ 0xca ∷ 0xf9 ∷ 0x85 ∷ 0x80 ∷ 0xca ∷ 0x56 ∷ 0xfa
    ∷ 0xde ∷ 0xd6 ∷ 0x5b ∷ 0xe2 ∷ 0x44 ∷ []

abbrev pub event_of : String → String → ℕ → Event
event_of module_name name amount = record {
  type_ = record { address = deepbook; module_name = module_name; name = name };
  contents = amount ∷ [];
}

abbrev pub tx_of : String → List Event → ExecutedTransaction
tx_of digest events = record {
  digest = digest;
  sender = 7 ∷ [];
  events = some events;
  input_objects = [];
  commands = move_call deepbook ∷ [];
}

-- A deposit, an event of another type, a deposit; and in a second transaction one more.
abbrev pub checkpoint : Checkpoint
checkpoint = record {
  sequence_number = 12;
  timestamp_ms = 1700000000000;
  transactions =
      tx_of "Da" (
        event_of "balance_manager" "BalanceEvent" 5
        ∷ event_of "order" "OrderModified" 9
        ∷ event_of "balance_manager" "BalanceEvent" 6
        ∷ [])
      ∷ tx_of "Db" (event_of "balance_manager" "BalanceEvent" 7 ∷ [])
      ∷ [];
}

-- An event is one byte, its amount.
abbrev pub balance_from_bytes : Bytes → Option BalanceEvent
balance_from_bytes [] = none
balance_from_bytes (amount ∷ rest) =
    some (record { balance_manager_id = 1 ∷ []; asset = "SUI"; amount = amount; deposit = true })
