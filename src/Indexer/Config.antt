-- ===== src/Indexer/Config.antt =====
-- deepbookv3/crates/indexer/src/lib.rs: the environments, the package addresses of each, and the
-- classification of Move modules.
use rain_protocol.Prelude.{
  String, Bool, not, List, [], ◌∷◌, ◌++◌, str_eq, any, keep, find, if◌then◌else◌,
}
use rain_protocol.Prelude.Result.{Result, ok_or, traverse}
use rain_protocol.Indexer.Sdk.{Bytes, Sdk}

pub data DeepbookEnv : Type 0 where
  mainnet testnet : DeepbookEnv

pub data ModuleType : Type 0 where
  core margin sui unknown : ModuleType

abbrev pub not_mainnet_package : String
not_mainnet_package = "<not on mainnet>"

unfoldable pub mainnet_packages : List String
mainnet_packages =
    "0xb29d83c26cdd2a64959263abbcfc4a6937f0c9fccaf98580ca56faded65be244"
    ∷ "0x2c8d603bc51326b8c13cef9dd07031a408a48dddb541963357661df5d3204809"
    ∷ "0xcaf6ba059d539a97646d47f0b9ddf843e138d215e2a12ca1f4585d386f7aec3a"
    ∷ "0x00c1a56ec8c4c623a848b2ed2f03d23a25d17570b670c22106f336eb933785cc"
    ∷ "0x2d93777cc8b67c064b495e8606f2f8f5fd578450347bbe7b36e0bc03963c1c40" ∷ []

unfoldable pub testnet_packages : List String
testnet_packages =
    "0x467e34e75debeea8b89d03aea15755373afc39a7c96c9959549c7f5f689843cf"
    ∷ "0x5d520a3e3059b68530b2ef4080126dbb5d234e0afd66561d0d9bd48127a06044"
    ∷ "0xcd40faffa91c00ce019bfe4a4b46f8d623e20bf331eb28990ee0305e9b9f3e3c"
    ∷ "0x16c4e050b9b19b25ce1365b96861bc50eb7e58383348a39ea8a8e1d063cfef73"
    ∷ "0xc483dba510597205749f2e8410c23f19be31a710aef251f353bc1b97755efd4d"
    ∷ "0x5da5bbf6fb097d108eaf2c2306f88beae4014c90a44b95c7e76a6bfccec5f5ee"
    ∷ "0xa3886aaa8aa831572dd39549242ca004a438c3a55967af9f0387ad2b01595068"
    ∷ "0x9592ac923593f37f4fed15ee15f760ebd4c39729f53ee3e8c214de7a17157769"
    ∷ "0x984757fc7c0e6dd5f15c2c66e881dd6e5aca98b725f3dbd83c445e057ebb790a"
    ∷ "0xfb28c4cbc6865bd1c897d26aecbe1f8792d1509a20ffec692c800660cbec6982"
    ∷ "0x926c446869fa175ec3b0dbf6c4f14604d86a415c1fccd8c8f823cfc46a29baed"
    ∷ "0xa0936c6ea82fbfc0356eedc2e740e260dedaaa9f909a0715b1cc31e9a8283719"
    ∷ "0x9ae1cbfb7475f6a4c2d4d3273335459f8f9d265874c4d161c1966cdcbd4e9ebc"
    ∷ "0xb48d47cb5f56d0f489f48f186d06672df59d64bd2f514b2f0ba40cbb8c8fd487"
    ∷ "0xbc331f09e5c737d45f074ad2d17c3038421b3b9018699e370d88d94938c53d28"
    ∷ "0x23018638bb4f11ef9ffb0de922519bea52f960e7a5891025ca9aaeeaff7d5034"
    ∷ "0x22be4cade64bf2d02412c7e8d0e8beea2f78828b948118d46735315409371a3c" ∷ []

unfoldable pub mainnet_margin_packages : List String
mainnet_margin_packages = "0x97d9473771b01f77b0940c589484184b49f6444627ec121314fae6a6d36fb86b" ∷ []

unfoldable pub testnet_margin_packages : List String
testnet_margin_packages =
    "0xb8620c24c9ea1a4a41e79613d2b3d1d93648d1bb6f6b789a7c8f261c94110e4b"
    ∷ "0xf978cf2b601c24e40ef82b6e51512b448696b44cb014c0a1162422aa8b9cb811"
    ∷ "0x16d781c327a919dc55390f5cc60d58c7ec4535bb317e88850961222bbd5d4d9e"
    ∷ "0xbf9e1b079fa68ffc54a84533b1c3d357019178b19e9901f262fb925454425177"
    ∷ "0xe673d499eb03f1c31e8079dc73a700f2f085ff7b69c4aff396fad52d07ae6338"
    ∷ "0x229d3cdbb327082a5c6773e8344b16c4040b360235e3cda75e1f232d4e9184cb"
    ∷ "0x3d02a90ae1d2eff63ca8ae9bfd89ffa0f7e12d780563259c8271833c270ae842"
    ∷ "0x3ca7f6ee86b42ebe05ab8de70fbc96832e65615f64f10dbdc1820fa599904c7b"
    ∷ "0xb284008ea0a6ac0a68c41f50a631207cd8d9c197ba0884e0df29ea204256777e"
    ∷ "0xc21637e41d3db1c7ca6258fb4de567ba09d4e41610da44a148b26e99b68e11b5"
    ∷ "0xf0a090340d74ea598d59868378f27d2cc5e46a562ec3a5b26b5117572905d9f3"
    ∷ "0x32e32dd608c4d83f82c64331a547bcb4bbfb819d4591197f2fe442b1661873d8"
    ∷ "0xd6a42f4df4db73d68cbeb52be66698d2fe6a9464f45ad113ca52b0c6ebd918b6" ∷ []

unfoldable pub core_modules : List String
core_modules =
    "balance_manager" ∷ "order" ∷ "order_info" ∷ "vault" ∷ "deep_price" ∷ "state" ∷ "governance"
    ∷ "pool" ∷ []

unfoldable pub margin_modules : List String
margin_modules =
    "margin_manager" ∷ "margin_pool" ∷ "margin_registry" ∷ "protocol_fees" ∷ "tpsl" ∷ []

unfoldable pub sui_modules : List String
sui_modules = "sui" ∷ []

-- `modules.contains(&module)`.
abbrev pub contains : List String → String → Bool
contains modules module_name = any (λ m. str_eq m module_name) modules

unfoldable pub is_core_module : String → Bool
unfolding core_modules
is_core_module module_name = contains core_modules module_name

unfoldable pub is_margin_module : String → Bool
unfolding margin_modules
is_margin_module module_name = contains margin_modules module_name

unfoldable pub is_sui_module : String → Bool
unfolding sui_modules
is_sui_module module_name = contains sui_modules module_name

unfoldable pub get_module_type : String → ModuleType
get_module_type module_name =
    if is_core_module module_name
    then core
    else if is_margin_module module_name
    then margin
    else if is_sui_module module_name
    then sui
    else unknown

unfoldable pub get_all_known_modules : List String
get_all_known_modules = core_modules ++ (margin_modules ++ sui_modules)

unfoldable pub is_valid_margin_package : String → Bool
is_valid_margin_package package_name = not (str_eq package_name not_mainnet_package)

unfoldable pub is_valid_margin_packages : List String → Bool
is_valid_margin_packages packages = any is_valid_margin_package packages

unfoldable pub get_margin_package_addresses : DeepbookEnv → List String
get_margin_package_addresses mainnet = mainnet_margin_packages
get_margin_package_addresses testnet = testnet_margin_packages

unfoldable pub get_core_package_addresses : DeepbookEnv → List String
get_core_package_addresses mainnet = mainnet_packages
get_core_package_addresses testnet = testnet_packages

unfoldable pub is_margin_supported : DeepbookEnv → Bool
is_margin_supported env = is_valid_margin_packages (get_margin_package_addresses env)

-- The first valid margin package; the error names the environment.
unfoldable pub get_margin_package_address : DeepbookEnv → Result String DeepbookEnv
get_margin_package_address env =
    ok_or env (find is_valid_margin_package (get_margin_package_addresses env))

-- DeepBook packages, then the margin packages that are not the placeholder.
unfoldable pub get_all_package_strings : DeepbookEnv → List String
get_all_package_strings env =
    get_core_package_addresses env
    ++ keep is_valid_margin_package (get_margin_package_addresses env)

-- Errors of the indexer: a failed decoding that `?` returns, and an `unwrap` that panics.
pub data Error : Type 0 where
  decode_failed panic : Error

module _ (sdk : Sdk) where
  unfoldable pub package_ids : DeepbookEnv → Result (List Bytes) Error
  package_ids env =
      traverse (λ pkg. ok_or panic (sdk.object_id_from_str pkg)) (get_all_package_strings env)

  unfoldable pub package_addresses : DeepbookEnv → Result (List Bytes) Error
  package_addresses env =
      traverse (λ pkg. ok_or panic (sdk.account_address_from_str pkg)) (get_all_package_strings env)
