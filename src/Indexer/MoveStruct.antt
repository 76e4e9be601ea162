-- ===== src/Indexer/MoveStruct.antt =====
-- deepbookv3/crates/indexer/src/traits.rs: which event types a Move struct accepts.
use rain_protocol.Prelude.{
  String, Bool, true, false, ◌&&◌, List, [], ◌∷◌, map, str_eq, any, filter_map, Option, none, some,
  length, ◌==◌, if◌then◌else◌,
}
use rain_protocol.Prelude.Text.{starts_with, drop_chars}
use rain_protocol.Prelude.Result.{Result, ok, err}
use rain_protocol.Indexer.Sdk.{Bytes, Sdk}
use rain_protocol.Indexer.Config.{
  DeepbookEnv, ModuleType, core, margin, sui, unknown, get_module_type, get_core_package_addresses,
  get_margin_package_addresses,
}

-- The type of an event (`StructTag`), without its type parameters, which no code here reads.
pub record StructTag : Type 0 where
  pub address : Bytes
  pub module_name : String
  pub name : String

-- `==` of two byte strings.
abbrev pub bytes_eq : Bytes → Bytes → Bool
bytes_eq [] [] = true
bytes_eq (a ∷ s) (b ∷ t) = a == b && bytes_eq s t
bytes_eq _ _ = false

-- Why a module has no addresses.
pub data AddressError : Type 0 where
  margin_not_supported : DeepbookEnv → String → AddressError
  bad_system_address : AddressError
  unknown_module : String → AddressError

abbrev sui_system_address : String
sui_system_address = "0000000000000000000000000000000000000000000000000000000000000002"

module _ (sdk : Sdk) where
  -- `none` stands for each of its two errors, which every caller drops.
  unfoldable pub parse_address_from_hex : String → Option Bytes
  parse_address_from_hex hex_str =
      let stripped = if starts_with hex_str "0x" then drop_chars 2 hex_str else hex_str in
      elim (sdk.hex_decode stripped) [
        | none ↦ none
        | some bytes ↦ if length bytes == 32 then some bytes else none
      ]

  -- The margin branch refuses an empty list of addresses.
  abbrev pub non_empty : DeepbookEnv → String → List Bytes → Result (List Bytes) AddressError
  non_empty env module_name [] = err (margin_not_supported env module_name)
  non_empty env module_name (a ∷ rest) = ok (a ∷ rest)

  abbrev pub sui_addresses : Option Bytes → Result (List Bytes) AddressError
  sui_addresses none = err bad_system_address
  sui_addresses (some addr) = ok (addr ∷ [])

  abbrev pub addresses_for : ModuleType → String → DeepbookEnv → Result (List Bytes) AddressError
  addresses_for core module_name env =
      ok (filter_map parse_address_from_hex (get_core_package_addresses env))
  addresses_for margin module_name env =
      non_empty env module_name
        (filter_map parse_address_from_hex (get_margin_package_addresses env))
  addresses_for sui module_name env = sui_addresses (parse_address_from_hex sui_system_address)
  addresses_for unknown module_name env = err (unknown_module module_name)

  unfoldable pub get_package_addresses_for_module :
      String → DeepbookEnv → Result (List Bytes) AddressError
  get_package_addresses_for_module module_name env =
      addresses_for (get_module_type module_name) module_name env

  -- `get_all_struct_types`: none if the addresses cannot be had.
  abbrev pub tags : String → String → Result (List Bytes) AddressError → List StructTag
  tags module_name name (err e) = []
  tags module_name name (ok addresses) =
      map (λ a. record { address = a; module_name = module_name; name = name }) addresses

  unfoldable pub get_all_struct_types : String → String → DeepbookEnv → List StructTag
  get_all_struct_types module_name name env =
      tags module_name name (get_package_addresses_for_module module_name env)

  abbrev pub same_type : StructTag → StructTag → Bool
  same_type event_type t =
      bytes_eq event_type.address t.address
      && str_eq event_type.module_name t.module_name
      && str_eq event_type.name t.name

  -- `matches_event_type` of a struct with the constants MODULE and NAME.
  unfoldable pub matches_event_type : String → String → DeepbookEnv → StructTag → Bool
  matches_event_type module_name name env event_type =
      any (same_type event_type) (get_all_struct_types module_name name env)
