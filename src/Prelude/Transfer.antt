-- ===== src/Prelude/Transfer.antt =====
-- What carries over from a list to its parts and rearrangements.
use Prim.Native.Nat.{ℕ, zero, suc}
use mathlib.Core.Path.{◌≡◌, sym, ap, ◌∙◌}
use mathlib.Core.Logic.{◌≢◌, ◌⊎◌, inl, inr}
use mathlib.Core.Bool.{Bool, true, false}
use mathlib.Core.List.{List, [], ◌∷◌, map, Permᴰ}
use rain_protocol.Prelude.Tests.{Bool-cases}
use rain_protocol.Prelude.Lists.{Among, All, All-weaken, keep, take}

-- No two elements at different places have the same key.
abbrev pub DistinctBy : {A B : Type 0} → (A → B) → List A → Type 0
DistinctBy f [] = Unit
DistinctBy f (x ∷ xs) = All (λ y. f x ≢ f y) xs × DistinctBy f xs

module _ {A : Type 0} where
  pub All-keep :
      (P : A → Type 0) (p : A → Bool) (xs : List A)
      → All P xs
      → All (λ x. P x × (p x ≡ true)) (keep p xs)
  All-keep P p [] h = tt
  All-keep P p (x ∷ xs) (px, h) = elim (Bool-cases (p x)) [
    | inl e ↦ rw (e, keep) ((px, e), All-keep P p xs h)
    | inr e ↦ rw (e, keep) (All-keep P p xs h)
  ]

  pub All-take : (P : A → Type 0) (n : ℕ) (xs : List A) → All P xs → All P (take n xs)
  All-take P zero xs h = tt
  All-take P (suc n) [] h = tt
  All-take P (suc n) (x ∷ xs) (px, h) = (px, All-take P n xs h)

  pub All-Permᴰ : (P : A → Type 0) {xs ys : List A} → Permᴰ xs ys → All P ys → All P xs
  All-Permᴰ P Permᴰ.nil h = tt
  All-Permᴰ P (Permᴰ.cons e p) (py, h) = (rw e py, All-Permᴰ P p h)
  All-Permᴰ P (Permᴰ.swap d e) (pa, (pb, h)) = (rw d pb, (rw e pa, h))
  All-Permᴰ P (Permᴰ.trans p q) h = All-Permᴰ P p (All-Permᴰ P q h)

  module _ {B : Type 0} (f : A → B) where
    pub DistinctBy-keep : (p : A → Bool) (xs : List A) → DistinctBy f xs → DistinctBy f (keep p xs)
    DistinctBy-keep p [] d = tt
    DistinctBy-keep p (x ∷ xs) (fresh, d) = elim (Bool-cases (p x)) [
      | inl e ↦
          rw (e, keep)
            (
              All-weaken (λ y. f x ≢ f y) (keep p xs) (λ y h. h.0)
                  (All-keep (λ y. f x ≢ f y) p xs fresh),
              DistinctBy-keep p xs d,
            )
      | inr e ↦ rw (e, keep) (DistinctBy-keep p xs d)
    ]

    pub DistinctBy-take : (n : ℕ) (xs : List A) → DistinctBy f xs → DistinctBy f (take n xs)
    DistinctBy-take zero xs d = tt
    DistinctBy-take (suc n) [] d = tt
    DistinctBy-take (suc n) (x ∷ xs) (fresh, d) = (All-take _ n xs fresh, DistinctBy-take n xs d)

    pub DistinctBy-Permᴰ : {xs ys : List A} → Permᴰ xs ys → DistinctBy f ys → DistinctBy f xs
    DistinctBy-Permᴰ Permᴰ.nil d = tt
    DistinctBy-Permᴰ (Permᴰ.cons e p) (fresh, d) =
        (rw e (All-Permᴰ _ p fresh), DistinctBy-Permᴰ p d)
    DistinctBy-Permᴰ (Permᴰ.swap {l = l} d e) ((apart, fresh), (fresh', rest)) = (
      (
        λ same. apart (sym (ap f e) ∙ (sym same ∙ ap f d)),
        All-weaken _ l (λ y ne same. ne (sym (ap f d) ∙ same)) fresh',
      ),
      (All-weaken _ l (λ y ne same. ne (sym (ap f e) ∙ same)) fresh, rest),
    )
    DistinctBy-Permᴰ (Permᴰ.trans p q) d = DistinctBy-Permᴰ p (DistinctBy-Permᴰ q d)

-- The image of a list under a map.
pub All-map :
    {A B : Type 0} (P : B → Type 0) (g : A → B) (xs : List A)
    → All (λ x. P (g x)) xs
    → All P (map g xs)
All-map P g [] h = tt
All-map P g (x ∷ xs) (px, h) = (px, All-map P g xs h)

pub DistinctBy-map :
    {A B C : Type 0} (f : B → C) (g : A → B) (xs : List A)
    → DistinctBy (λ x. f (g x)) xs
    → DistinctBy f (map g xs)
DistinctBy-map f g [] d = tt
DistinctBy-map f g (x ∷ xs) (fresh, d) =
    (All-map (λ y. f (g x) ≢ f y) g xs fresh, DistinctBy-map f g xs d)

pub Among-map :
    {A B : Type 0} (g : A → B) (x : A) (xs : List A) → Among x xs → Among (g x) (map g xs)
Among-map g x (y ∷ ys) (inl e) = inl (ap g e)
Among-map g x (y ∷ ys) (inr h) = inr (Among-map g x ys h)
Among-map g x [] h = elim h [ ]

pub keep-Among :
    {A : Type 0} (p : A → Bool) (x : A) (xs : List A)
    → Among x xs
    → (p x ≡ false) ⊎ Among x (keep p xs)
keep-Among p x [] h = elim h [ ]
keep-Among p x (y ∷ ys) h = elim (Bool-cases (p y)) [
  | inl good ↦ elim h [
    | inl e ↦ inr (rw (good, keep) (inl e))
    | inr later ↦ elim (keep-Among p x ys later) [
      | inl no_ ↦ inl no_
      | inr there ↦ inr (rw (good, keep) (inr there))
    ]
  ]
  | inr bad ↦ elim h [
    | inl e ↦ inl (rw (← e) bad)
    | inr later ↦ elim (keep-Among p x ys later) [
      | inl no_ ↦ inl no_
      | inr there ↦ inr (rw (bad, keep) there)
    ]
  ]
]

pub Among-Permᴰ : {A : Type 0} (x : A) {xs ys : List A} → Permᴰ xs ys → Among x ys → Among x xs
Among-Permᴰ x Permᴰ.nil h = h
Among-Permᴰ x (Permᴰ.cons e p) (inl same) = inl (e ∙ same)
Among-Permᴰ x (Permᴰ.cons e p) (inr h) = inr (Among-Permᴰ x p h)
Among-Permᴰ x (Permᴰ.swap d e) (inl same) = inr (inl (e ∙ same))
Among-Permᴰ x (Permᴰ.swap d e) (inr (inl same)) = inl (d ∙ same)
Among-Permᴰ x (Permᴰ.swap d e) (inr (inr h)) = inr (inr h)
Among-Permᴰ x (Permᴰ.trans p q) h = Among-Permᴰ x p (Among-Permᴰ x q h)

pub All-Among : {A : Type 0} (P : A → Type 0) (x : A) (xs : List A) → All P xs → Among x xs → P x
All-Among P x (y ∷ ys) (p, h) (inl same) = rw (← same) p
All-Among P x (y ∷ ys) (p, h) (inr later) = All-Among P x ys h later
All-Among P x [] h a = elim a [ ]
