-- ===== src/Prelude/Map.antt =====
-- `HashMap<String, V>` as an association list without repeated keys. Rust leaves the order in which
-- a map is iterated open: here it is the order of the list, and no theorem depends on it.
use Prim.Native.String.{String}
use mathlib.Core.Path.{◌≡◌, refl}
use mathlib.Core.Option.{Option, none, some}
use mathlib.Core.List.{List, [], ◌∷◌}
use native.Mathlib.Omega.{arith}
use text.Mathlib.Text.{◌==◌ as str_eq}
use text.Mathlib.TextEquality.{eq_iff}
use rain_protocol.Prelude.Tests.{if◌then◌else◌}

abbrev pub HashMap {ℓ} : Type ℓ → Type ℓ
HashMap V = List (String × V)

module _ {ℓ} {V : Type ℓ} where
  unfoldable pub get : String → HashMap V → Option V
  get k [] = none
  get k ((j, v) ∷ m) = if str_eq j k then some v else get k m

  unfoldable pub insert : String → V → HashMap V → HashMap V
  insert k v [] = (k, v) ∷ []
  insert k v ((j, w) ∷ m) = if str_eq j k then (k, v) ∷ m else (j, w) ∷ insert k v m

  -- `map.remove(&k)`, without its result.
  unfoldable pub remove : String → HashMap V → HashMap V
  remove k [] = []
  remove k ((j, w) ∷ m) = let rest = remove k m in if str_eq j k then rest else (j, w) ∷ rest

  -- `iter.collect::<HashMap<_, _>>()`: a later entry replaces an earlier one with its key.
  unfoldable pub collect_onto : HashMap V → List (String × V) → HashMap V
  collect_onto m [] = m
  collect_onto m ((k, v) ∷ rest) = collect_onto (insert k v m) rest

  unfoldable pub collect : List (String × V) → HashMap V
  unfolding collect_onto insert
  collect entries = collect_onto [] entries

  pub get-insert :
      (k j : String) (v : V) (m : HashMap V)
      → get j (insert k v m) ≡ (if str_eq k j then some v else get j m)
  unfolding get insert
  get-insert k j v [] = refl
  get-insert k j v ((i, w) ∷ m) =
      ground (arith, eq_iff k j, eq_iff i k, eq_iff i j, get-insert k j v m)

  pub get-remove :
      (k j : String) (m : HashMap V) → get j (remove k m) ≡ (if str_eq k j then none else get j m)
  unfolding get remove
  get-remove k j [] = ground arith
  get-remove k j ((i, w) ∷ m) = ground (arith, eq_iff k j, eq_iff i k, eq_iff i j, get-remove k j m)

  -- The value of the last entry with the key, if there is one.
  abbrev pub last_onto : Option V → String → List (String × V) → Option V
  last_onto o k [] = o
  last_onto o k ((j, v) ∷ rest) = last_onto (if str_eq j k then some v else o) k rest

  pub get-collect_onto :
      (k : String) (m : HashMap V) (rows : List (String × V))
      → get k (collect_onto m rows) ≡ last_onto (get k m) k rows
  unfolding collect_onto
  get-collect_onto k m [] = refl
  get-collect_onto k m ((j, v) ∷ rest) =
      rw (get-collect_onto k (insert j v m) rest, get-insert) refl
