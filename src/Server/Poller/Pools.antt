-- ===== src/Server/Poller/Pools.antt =====
-- Which pools the poller polls (deepbookv3/crates/server/src/margin_metrics/poller.rs).
use Prim.Native.Char.{code}
use rain_protocol.Prelude.{
  keep, ◌&&◌, ◌||◌, ◌==◌, str_eq, Bool-cases, Option-cases, if◌then◌else◌, String, List, [], ◌∷◌,
  map, filter_map, filter_map-ext, Option, none, some, ◌≡◌, refl, arith, inl, inr,
}
use rain_protocol.Prelude.Int.{ℤ}
use rain_protocol.Prelude.Map.{get, collect, last_onto, get-collect_onto}
use rain_protocol.Prelude.Text.{starts_with, strip_prefix, drop_chars}
use rain_protocol.Server.Poller.{MarginPoolInfo, normalized, get_margin_pools}

-- An asset type without `0x` or `0X` at its start: of its first two characters the codes are 48, and 120
-- or 88.
abbrev pub bare : String → String
bare String.[] = String.[]
bare (String.◌∷◌ c String.[]) = String.◌∷◌ c String.[]
bare (String.◌∷◌ c (String.◌∷◌ d s)) =
    if code c == 48 && (code d == 120 || code d == 88) then s else String.◌∷◌ c (String.◌∷◌ d s)

normalized-bare : (asset_type : String) → normalized asset_type ≡ bare asset_type
unfolding normalized starts_with strip_prefix drop_chars
normalized-bare String.[] = refl
normalized-bare (String.◌∷◌ c String.[]) = ground arith
normalized-bare (String.◌∷◌ c (String.◌∷◌ d s)) = ground arith

-- The assets that have this type, each with or without a prefix.
abbrev pub same_type : String → List (String × ℤ) → List (String × ℤ)
same_type asset_type assets = keep (λ (t, decimals). str_eq (bare t) (bare asset_type)) assets

abbrev pub last_decimals : Option ℤ → List (String × ℤ) → Option ℤ
last_decimals o [] = o
last_decimals o ((t, decimals) ∷ rest) = last_decimals (some decimals) rest

last_onto-same_type :
    (o : Option ℤ) (asset_type : String) (assets : List (String × ℤ))
    → last_onto o (normalized asset_type) (map (λ (t, decimals). (normalized t, decimals)) assets)
      ≡ last_decimals o (same_type asset_type assets)
last_onto-same_type o asset_type [] = refl
last_onto-same_type o asset_type ((t, decimals) ∷ rest) =
    let test : str_eq (normalized t) (normalized asset_type) ≡ str_eq (bare t) (bare asset_type) =
      rw (normalized-bare t, normalized-bare asset_type) refl in
    elim (Bool-cases (str_eq (bare t) (bare asset_type))) [
      | inl e ↦ rw (last_onto, keep, test, e) (last_onto-same_type (some decimals) asset_type rest)
      | inr e ↦ rw (last_onto, keep, test, e) (last_onto-same_type o asset_type rest)
    ]

-- A pool with the decimals of the last asset of its type, if there is one.
abbrev pub polled : List (String × ℤ) → String × String → Option MarginPoolInfo
polled assets (pool_id, asset_type) = elim (last_decimals none (same_type asset_type assets)) [
  | none ↦ none
  | some decimals ↦
      some (record { pool_id = pool_id; asset_type = asset_type; decimals = decimals })
]

-- A pool is polled if an asset has its asset type, where an `0x` or `0X` in front of either type does
-- not count, and then with the decimals of the last such asset; the pools keep their order.
pub get_margin_pools-last :
    (pools : List (String × String)) (assets : List (String × ℤ))
    → get_margin_pools pools assets ≡ filter_map (polled assets) pools
unfolding get_margin_pools collect get
get_margin_pools-last pools assets =
    filter_map-ext _ (polled assets) pools (λ (pool_id, asset_type).
      rw
        (
          get-collect_onto (normalized asset_type) []
              (map (λ (t, decimals). (normalized t, decimals)) assets),
          last_onto-same_type none asset_type assets,
        )
        (elim (Option-cases (last_decimals none (same_type asset_type assets))) [
          | inl e ↦ rw (e, polled) refl
          | inr (decimals, e) ↦ rw (e, polled) refl
        ]))
