-- ===== src/Prelude/Entries.antt =====
-- Maps with distinct keys: collecting them changes nothing.
use mathlib.Core.Path.{◌≡◌, refl, sym, ap, ◌∙◌}
use mathlib.Core.Logic.{◌≢◌, ◌⊎◌, inl, inr}
use Prim.Native.String.{String}
use mathlib.Core.Bool.{false}
use mathlib.Core.Option.{none, some}
use mathlib.Core.List.{[], ◌∷◌, ◌++◌, append_assoc, append-nil}
use native.Mathlib.Omega.{arith}
use text.Mathlib.Text.{◌==◌ as str_eq}
use text.Mathlib.TextEquality.{eq_iff}
use rain_protocol.Prelude.Tests.{Bool-cases}
use rain_protocol.Prelude.Lists.{Among, All}
use rain_protocol.Prelude.Transfer.{DistinctBy}
use rain_protocol.Prelude.Map.{HashMap, get, insert, collect, collect_onto}

distinct_of_test : (j k : String) → str_eq j k ≡ false → j ≢ k
distinct_of_test j k e same = ground (arith, eq_iff j k)

module _ {V : Type 0} where
  -- The key is not one of the map's.
  abbrev pub IsFresh : HashMap V → String → Type 0
  IsFresh m k = All (λ e. e.0 ≢ k) m

  insert_fresh :
      (k : String) (v : V) (m : HashMap V) → IsFresh m k → insert k v m ≡ m ++ ((k, v) ∷ [])
  unfolding insert
  insert_fresh k v [] fresh = refl
  insert_fresh k v ((j, w) ∷ m) (ne, fresh) = elim (Bool-cases (str_eq j k)) [
    | inl e ↦ absurd (ne ((eq_iff j k).0 e))
    | inr e ↦ rw (e, insert_fresh k v m fresh) refl
  ]

  IsFresh-append :
      (m : HashMap V) (k j : String) (v : V) → IsFresh m j → k ≢ j → IsFresh (m ++ ((k, v) ∷ [])) j
  IsFresh-append [] k j v fresh ne = (ne, tt)
  IsFresh-append (e ∷ m) k j v (apart, fresh) ne = (apart, IsFresh-append m k j v fresh ne)

  All-IsFresh :
      (m : HashMap V) (k : String) (v : V) (xs : HashMap V)
      → All (λ e. IsFresh m e.0) xs
      → All (λ e. k ≢ e.0) xs
      → All (λ e. IsFresh (m ++ ((k, v) ∷ [])) e.0) xs
  All-IsFresh m k v [] h d = tt
  All-IsFresh m k v ((j, w) ∷ xs) (fresh, h) (ne, d) =
      (IsFresh-append m k j v fresh ne, All-IsFresh m k v xs h d)

  collect_onto_distinct :
      (m xs : HashMap V)
      → All (λ e. IsFresh m e.0) xs
      → DistinctBy (λ (e : String × V). e.0) xs
      → collect_onto m xs ≡ m ++ xs
  unfolding collect_onto
  collect_onto_distinct m [] h d = sym (append-nil m)
  collect_onto_distinct m ((k, v) ∷ xs) (fresh, h) (apart, d) = rw (insert_fresh k v m fresh) (
      collect_onto_distinct (m ++ ((k, v) ∷ [])) xs (All-IsFresh m k v xs h apart) d
      ∙ append_assoc m ((k, v) ∷ []) xs)

  All-anything : (xs : HashMap V) → All (λ e. IsFresh [] e.0) xs
  All-anything [] = tt
  All-anything (x ∷ xs) = (tt, All-anything xs)

  -- Entries with distinct keys are a map already.
  pub collect_distinct :
      (xs : HashMap V) → DistinctBy (λ (e : String × V). e.0) xs → collect xs ≡ xs
  unfolding collect
  collect_distinct xs d = collect_onto_distinct [] xs (All-anything xs) d

  pub get-cases :
      (k : String) (m : HashMap V)
      → ((v : V) × (get k m ≡ some v) × Among (k, v) m) ⊎ ((get k m ≡ none) × IsFresh m k)
  unfolding get
  get-cases k [] = inr (refl, tt)
  get-cases k ((j, w) ∷ m) = elim (Bool-cases (str_eq j k)) [
    | inl e ↦ inl (w, rw e refl, inl (ap (λ i. (i, w)) ((eq_iff j k).0 e)))
    | inr e ↦ elim (get-cases k m) [
      | inl (v, found, among) ↦ inl (v, rw e found, inr among)
      | inr (missing, fresh) ↦ inr (rw e missing, (λ same. distinct_of_test j k e same, fresh))
    ]
  ]
