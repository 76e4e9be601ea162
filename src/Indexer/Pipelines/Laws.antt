-- ===== src/Indexer/Pipelines/Laws.antt =====
-- Starting the indexer.
use rain_protocol.Prelude.{String, Bool, true, not, ◌&&◌, List, [], ◌∷◌, map, any, str_eq}
use rain_protocol.Prelude.Result.{concat}
use rain_protocol.Indexer.Sdk.{Sdk}
use rain_protocol.Indexer.Pipelines.{Package, handlers_of}

-- Whether no two texts of a list are equal.
abbrev separate : List String → Bool
separate [] = true
separate (x ∷ xs) = not (any (str_eq x) xs) && separate xs

abbrev pub names_of : Sdk → List Package → List String
names_of sdk packages = concat (map (handlers_of sdk) packages)

abbrev pub reverse_onto : {A : Type 0} → List A → List A → List A
reverse_onto [] out = out
reverse_onto (x ∷ xs) out = reverse_onto xs (x ∷ out)
