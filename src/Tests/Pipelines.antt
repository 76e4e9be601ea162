-- ===== src/Tests/Pipelines.antt =====
-- An indexer that starts with both packages.
use rain_protocol.Prelude.{
  ◌≡◌, refl, sym, String, false, List, [], ◌∷◌, Among, any, str_eq, eq_iff, inl, inr, Bool-cases,
  if◌then◌else◌,
}
use rain_protocol.Prelude.Result.{Result, ok, err}
use rain_protocol.Indexer.Pipelines.{Framework}

any-Among : (name : String) (xs : List String) → ¬ Among name xs → any (str_eq name) xs ≡ false
any-Among name [] new = refl
any-Among name (x ∷ xs) new = elim (Bool-cases (str_eq name x)) [
  | inl same ↦ absurd (new (inl (sym ((eq_iff name x).0 same))))
  | inr apart ↦ rw apart (any-Among name xs (λ a. new (inr a)))
]

abbrev add : String → List String → Result (List String) String
add name s = if any (str_eq name) s then err "already added" else ok (name ∷ s)

add_new :
    (name : String) (s : List String)
    → ¬ Among name s
    → (s' : List String) × (add name s ≡ ok s') × (s' ≡ name ∷ s)
add_new name s new = (name ∷ s, rw (any-Among name s new) refl, refl)

abbrev framework : Framework
framework = record {
  State = List String;
  added = λ s. s;
  concurrent_pipeline = add;
  adds = add_new;
}
