-- ===== src/Indexer/Process/Prefilter.antt =====
-- `is_deepbook_tx` against `matches_event_type`: the first never hides an event from a handler of
-- a DeepBook module (deepbookv3/crates/indexer/src/handlers/mod.rs and traits.rs).
use rain_protocol.Prelude.{
  String, Bool, true, List, [], ◌∷◌, ◌++◌, Option, none, some, map, any, filter_map, ◌≡◌, refl, sym,
  ◌∙◌, ap, ◌⊎◌, inl, inr, arith, keep,
}
use rain_protocol.Prelude.Result.{
  Result, ok, ok_or, >>=-eq-ok, ok-injective, traverse, traverse-append, traverse-cons,
}
use rain_protocol.Indexer.Sdk.{Bytes, Sdk}
use rain_protocol.Indexer.Config.{
  DeepbookEnv, mainnet, testnet, Error, panic, core, margin, get_module_type, package_ids,
  package_addresses, get_core_package_addresses, get_margin_package_addresses,
  get_all_package_strings, is_valid_margin_package, mainnet_margin_packages,
  testnet_margin_packages,
}
use rain_protocol.Indexer.MoveStruct.{
  StructTag, same_type, tags, parse_address_from_hex, non_empty, matches_event_type,
  get_all_struct_types, get_package_addresses_for_module,
}
use rain_protocol.Indexer.Chain.{
  Event, ExecutedTransaction, among, has_deepbook_event, is_deepbook_tx,
}

any-append_left :
    {A : Type 0} (p : A → Bool) (xs ys : List A) → any p xs ≡ true → any p (xs ++ ys) ≡ true
any-append_left p [] ys h = cc
any-append_left p (x ∷ xs) ys h = ground (arith, any-append_left p xs ys)

any-append_right :
    {A : Type 0} (p : A → Bool) (xs ys : List A) → any p ys ≡ true → any p (xs ++ ys) ≡ true
any-append_right p [] ys h = h
any-append_right p (x ∷ xs) ys h = ground (arith, any-append_right p xs ys)

module _ (sdk : Sdk) where
  -- `AccountAddress::from_str` reads what `parse_address_from_hex` reads, as the same bytes.
  abbrev pub ReadsHex : Type 0
  ReadsHex =
      (s : String) (b : Bytes)
      → parse_address_from_hex sdk s ≡ some b
      → sdk.account_address_from_str s ≡ some b

  abbrev read : String → Result Bytes Error
  read s = ok_or panic (sdk.account_address_from_str s)

  abbrev tagged : String → String → List String → List StructTag
  tagged module_name name packages =
      map (λ a. record { address = a; module_name = module_name; name = name })
        (filter_map (parse_address_from_hex sdk) packages)

  module _ (event_type : StructTag) (module_name name : String) where
    abbrev tag : Bytes → StructTag
    tag a = record { address = a; module_name = module_name; name = name }

    -- One package: what `parse_address_from_hex` made of it, beside the address `y` read from it.
    among-cons :
        (parsed : Option Bytes) (rest ys : List Bytes) (y : Bytes)
        → ((b : Bytes) → parsed ≡ some b → b ≡ y)
        → (any (same_type sdk event_type) (map tag rest) ≡ true
            → among ys event_type.address ≡ true)
        → any (same_type sdk event_type) (map tag (elim parsed [ none ↦ rest | some b ↦ b ∷ rest ]))
          ≡ true
        → among (y ∷ ys) event_type.address ≡ true
    among-cons none rest ys y agree tail h = ground (arith, tail h)
    among-cons (some b) rest ys y agree tail h = rw (← agree b refl) (ground (arith, tail))

    among-traverse :
        ReadsHex
        → (packages : List String) (addresses : List Bytes)
        → any (same_type sdk event_type) (tagged module_name name packages) ≡ true
        → traverse read packages ≡ ok addresses
        → among addresses event_type.address ≡ true
    among-traverse reads [] addresses h e = cc
    among-traverse reads (s ∷ rest) addresses h e =
        let (y, ys, first, others, split) = traverse-cons read s rest e in
        rw split (
          among-cons (parse_address_from_hex sdk s) (filter_map (parse_address_from_hex sdk) rest)
            ys y (λ b parsed. ok-injective (sym (ap (ok_or panic) (reads s b parsed)) ∙ first))
            (λ later. among-traverse reads rest ys later others) h)

-- No environment lists the placeholder among its margin packages.
margin_packages_valid :
    (env : DeepbookEnv)
    → keep is_valid_margin_package (get_margin_package_addresses env)
      ≡ get_margin_package_addresses env
unfolding get_margin_package_addresses mainnet_margin_packages testnet_margin_packages
    is_valid_margin_package
margin_packages_valid mainnet = refl
margin_packages_valid testnet = refl

module _ (sdk : Sdk) (env : DeepbookEnv) (module_name name : String) (event_type : StructTag) where
  tags-non_empty :
      (found : List Bytes)
      → any
          (same_type sdk event_type)
          (tags sdk module_name name (non_empty sdk env module_name found))
        ≡ true
      → any (same_type sdk event_type) (map (tag sdk event_type module_name name) found) ≡ true
  tags-non_empty [] h = h
  tags-non_empty (a ∷ rest) h = h

  match-core :
      get_module_type module_name ≡ core
      → matches_event_type sdk module_name name env event_type ≡ true
      → any
          (same_type sdk event_type)
          (tagged sdk module_name name (get_core_package_addresses env))
        ≡ true
  unfolding matches_event_type get_all_struct_types get_package_addresses_for_module
  match-core kind h = rw kind at h

  match-margin :
      get_module_type module_name ≡ margin
      → matches_event_type sdk module_name name env event_type ≡ true
      → any
          (same_type sdk event_type)
          (tagged sdk module_name name (get_margin_package_addresses env))
        ≡ true
  unfolding matches_event_type get_all_struct_types get_package_addresses_for_module
  match-margin kind h =
      tags-non_empty (filter_map (parse_address_from_hex sdk) (get_margin_package_addresses env))
        (rw kind at h)

  matches-among :
      ReadsHex sdk
      → (addresses : List Bytes) → package_addresses sdk env ≡ ok addresses
      → (get_module_type module_name ≡ core) ⊎ (get_module_type module_name ≡ margin)
      → matches_event_type sdk module_name name env event_type ≡ true
      → among addresses event_type.address ≡ true
  unfolding package_addresses get_all_package_strings
  matches-among reads addresses parsed kind h =
      let split = sym (traverse-append (read sdk) (get_core_package_addresses env) _) ∙ parsed in
      let (cores, core_parsed, rest) =
        >>=-eq-ok (traverse (read sdk) (get_core_package_addresses env)) _ split in
      let (margins, margin_parsed, joined) =
        >>=-eq-ok
          (traverse (read sdk) (keep is_valid_margin_package (get_margin_package_addresses env))) _
          rest in
      rw (← ok-injective joined)
        (from_kind kind cores margins core_parsed (rw margin_packages_valid at margin_parsed))
    where
      from_kind :
          (get_module_type module_name ≡ core) ⊎ (get_module_type module_name ≡ margin)
          → (cores margins : List Bytes)
          → traverse (read sdk) (get_core_package_addresses env) ≡ ok cores
          → traverse (read sdk) (get_margin_package_addresses env) ≡ ok margins
          → among (cores ++ margins) event_type.address ≡ true
      from_kind (inl is_core) cores margins p q =
          any-append_left _ cores margins
            (among-traverse sdk event_type module_name name reads _ cores (match-core is_core h) p)
      from_kind (inr is_margin) cores margins p q = any-append_right _ cores margins (
          among-traverse sdk event_type module_name name reads _ margins (match-margin is_margin h)
            q)

any-implies :
    {A : Type 0} (p q : A → Bool) (xs : List A)
    → ((x : A) → p x ≡ true → q x ≡ true)
    → any p xs ≡ true
    → any q xs ≡ true
any-implies p q [] f h = h
any-implies p q (x ∷ xs) f h = ground (arith, f x, any-implies p q xs f)

-- If the package constants parse, and `AccountAddress::from_str` reads hexadecimal addresses as
-- `parse_address_from_hex` does, then a transaction with an event that matches a type of a core or
-- margin module passes `is_deepbook_tx`.
pub is_deepbook_tx-matches :
    (sdk : Sdk) (env : DeepbookEnv) (module_name name : String) (tx : ExecutedTransaction)
    (events : List Event) (addresses packages : List Bytes)
    → ReadsHex sdk
    → package_addresses sdk env ≡ ok addresses
    → package_ids sdk env ≡ ok packages
    → (get_module_type module_name ≡ core) ⊎ (get_module_type module_name ≡ margin)
    → tx.events ≡ some events
    → any (λ (ev : Event). matches_event_type sdk module_name name env ev.type_) events ≡ true
    → is_deepbook_tx sdk tx env ≡ ok true
unfolding is_deepbook_tx
is_deepbook_tx-matches sdk env module_name name tx events addresses packages reads parsed ids kind
      present h =
    let seen : has_deepbook_event addresses (some events) ≡ true =
      any-implies _ _ events
        (λ ev. matches-among sdk env module_name name ev.type_ reads addresses parsed kind) h in
    rw (parsed, ids, present, seen) (ground arith)
