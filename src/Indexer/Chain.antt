-- ===== src/Indexer/Chain.antt =====
-- deepbookv3/crates/indexer/src/handlers/mod.rs: what the handlers read of a checkpoint, the
-- metadata of an event, and the test that a transaction concerns DeepBook.
use rain_protocol.Prelude.{
  ℕ, String, Bool, true, false, List, [], ◌∷◌, any, Option, none, some, unwrap_or, ◌<>◌,
  if◌then◌else◌,
}
use rain_protocol.Prelude.Int.{ℤ}
use rain_protocol.Prelude.Words.{as_i64}
use rain_protocol.Prelude.Decimal.{show_ℕ}
use rain_protocol.Prelude.Result.{Result, ok, ◌>>=◌}
use rain_protocol.Indexer.Sdk.{Bytes, Sdk}
use rain_protocol.Indexer.Config.{DeepbookEnv, Error, package_ids, package_addresses}
use rain_protocol.Indexer.MoveStruct.{StructTag, bytes_eq}

-- The parts of the framework's checkpoint that the indexer reads.
pub record Event : Type 0 where
  pub type_ : StructTag
  pub contents : Bytes

pub data Command : Type 0 where
  move_call : Bytes → Command
  other_command : Command

-- An input object: the type of a Move object (a package has none), and the id.
pub record Object : Type 0 where
  pub type_ : Option StructTag
  pub id : Bytes

pub record ExecutedTransaction : Type 0 where
  pub digest : String
  pub sender : Bytes
  pub events : Option (List Event)
  pub input_objects : List Object
  pub commands : List Command

pub record Checkpoint : Type 0 where
  pub sequence_number : ℕ
  pub timestamp_ms : ℕ
  pub transactions : List ExecutedTransaction

pub record EventMeta : Type 0 where
  pub digest : String
  pub sender : String
  pub checkpoint : ℤ
  pub checkpoint_timestamp_ms : ℤ
  pub package_id : String
  pub event_index : ℕ

unfoldable pub event_digest : EventMeta → String
event_digest meta = meta.digest <> show_ℕ meta.event_index

unfoldable pub with_index : EventMeta → ℕ → EventMeta
with_index meta index = record meta { event_index = index }

module _ (sdk : Sdk) where
  -- The package of the first command, if that is a call.
  abbrev pub first_package : List Command → Option String
  first_package [] = none
  first_package (move_call package_id ∷ rest) = some (sdk.object_id_to_string package_id)
  first_package (other_command ∷ rest) = none

  unfoldable pub try_extract_move_call_package : ExecutedTransaction → Option String
  try_extract_move_call_package tx = first_package tx.commands

  unfoldable pub from_checkpoint_tx : Checkpoint → ExecutedTransaction → EventMeta
  unfolding try_extract_move_call_package
  from_checkpoint_tx checkpoint tx = record {
    digest = tx.digest;
    sender = sdk.address_to_string tx.sender;
    checkpoint = as_i64 checkpoint.sequence_number;
    checkpoint_timestamp_ms = as_i64 checkpoint.timestamp_ms;
    package_id = unwrap_or "" (try_extract_move_call_package tx);
    event_index = 0;
  }

abbrev pub among : List Bytes → Bytes → Bool
among addresses a = any (λ addr. bytes_eq a addr) addresses

abbrev pub has_deepbook_input : List Bytes → List Object → Bool
has_deepbook_input addresses objects =
    any (λ (obj : Object). elim obj.type_ [ none ↦ false | some t ↦ among addresses t.address ])
      objects

abbrev pub has_deepbook_event : List Bytes → Option (List Event) → Bool
has_deepbook_event addresses none = false
has_deepbook_event addresses (some events) =
    any (λ (event : Event). among addresses event.type_.address) events

abbrev pub is_call_of : List Bytes → Command → Bool
is_call_of packages (move_call package_id) = among packages package_id
is_call_of packages other_command = false

abbrev pub has_deepbook_call : List Bytes → List Command → Bool
has_deepbook_call packages commands = any (is_call_of packages) commands

-- The body of `is_deepbook_tx`, on the parsed package addresses.
abbrev pub concerns_deepbook : List Bytes → List Bytes → ExecutedTransaction → Bool
concerns_deepbook addresses packages tx =
    if has_deepbook_input addresses tx.input_objects
    then true
    else if has_deepbook_event addresses tx.events
    then true
    else has_deepbook_call packages tx.commands

-- The error is the panic of an `unwrap` on a package constant.
unfoldable pub is_deepbook_tx : Sdk → ExecutedTransaction → DeepbookEnv → Result Bool Error
is_deepbook_tx sdk tx env = do
  addresses ← package_addresses sdk env
  packages ← package_ids sdk env
  ok (concerns_deepbook addresses packages tx)
