-- ===== src/Prelude/Json.antt =====
-- `serde_json::Value`, as far as the program builds it. An object lists its fields in the order of the
-- struct it is made from.
use Prim.Native.Nat.{ℕ}
use Prim.Native.String.{String}
use mathlib.Core.Bool.{Bool}
use mathlib.Core.List.{List, [], ◌∷◌}

mutual
  pub data Json : Type 0 where
    bool : Bool → Json
    number : ℕ → Json
    string : String → Json
    array : Elements → Json
    object : Fields → Json

  pub data Elements : Type 0 where
    nil : Elements
    cons : Json → Elements → Elements

  pub data Fields : Type 0 where
    done : Fields
    field : String → Json → Fields → Fields

abbrev pub fields : List (String × Json) → Fields
fields [] = done
fields ((name, value) ∷ rest) = field name value (fields rest)

-- The value of a struct with `#[derive(Serialize)]`.
abbrev pub struct : List (String × Json) → Json
struct entries = object (fields entries)
