-- ===== src/Prelude/Result.antt =====
-- Rust's `Result`, its `?` as a bind, and conversions from `Option`.
use mathlib.Core.Path.{◌≡◌, refl, sym, ap, ◌∙◌}
use mathlib.Core.Option.{Option, none, some}
use mathlib.Core.List.{append_assoc, List, [], ◌∷◌, ◌++◌, map}
use mathlib.Core.Logic.{◌⊎◌, inl, inr}

pub data Result (A E : Type 0) : Type 0 where
  ok : A → Result A E
  err : E → Result A E

infixl 5 ◌>>=◌
abbrev pub ◌>>=◌ : {A B E : Type 0} → Result A E → (A → Result B E) → Result B E
err e >>= next = err e
ok value >>= next = next value

-- `o.ok_or(e)`.
abbrev pub ok_or : {A E : Type 0} → E → Option A → Result A E
ok_or e none = err e
ok_or e (some a) = ok a

-- `iter().map(f).collect::<Result<Vec<_>, _>>()`: the first error ends it.
unfoldable pub traverse : {A B E : Type 0} → (A → Result B E) → List A → Result (List B) E
traverse f [] = ok []
traverse f (x ∷ xs) = do y ← f x; ys ← traverse f xs; ok (y ∷ ys)

-- Inversion of a successful bind.
pub >>=-eq-ok :
    {A B E : Type 0} (first : Result A E) (next : A → Result B E) {out : B}
    → (first >>= next) ≡ ok out
    → (value : A) × (first ≡ ok value) × (next value ≡ ok out)
>>=-eq-ok (err e) next same = cc
>>=-eq-ok (ok value) next same = (value, refl, same)

pub ok-injective : {A E : Type 0} {a b : A} → Path (Result A E) (ok a) (ok b) → a ≡ b
ok-injective h = cc

pub bind-ok : {A E : Type 0} (m : Result A E) → m ≡ (m >>= ok)
bind-ok (ok a) = refl
bind-ok (err e) = refl

-- A plain function between two binds.
pub bind_map :
    {A B C E : Type 0} (m : Result A E) (f : A → B) (k : B → Result C E)
    → (m >>= λ a. k (f a)) ≡ ((m >>= λ a. ok (f a)) >>= k)
bind_map (ok a) f k = refl
bind_map (err e) f k = refl

pub Result-cases :
    {A E : Type 0} (m : Result A E) → ((a : A) × (m ≡ ok a)) ⊎ ((e : E) × (m ≡ err e))
Result-cases (ok a) = inl (a, refl)
Result-cases (err e) = inr (e, refl)

cons-append :
    {B E : Type 0} (m : Result B E) (p q : Result (List B) E)
    → (do y ← m; zs ← (do bs ← p; cs ← q; ok (bs ++ cs)); ok (y ∷ zs))
      ≡ (do bs ← (do y ← m; ys ← p; ok (y ∷ ys)); cs ← q; ok (bs ++ cs))
cons-append (ok y) (ok bs) (ok cs) = refl
cons-append (ok y) (ok bs) (err e) = refl
cons-append (ok y) (err e) q = refl
cons-append (err e) p q = refl

module _ {A B E : Type 0} where
  pub traverse-append :
      (f : A → Result B E) (xs ys : List A)
      → traverse f (xs ++ ys) ≡ (do bs ← traverse f xs; cs ← traverse f ys; ok (bs ++ cs))
  unfolding traverse
  traverse-append f [] ys = bind-ok (traverse f ys)
  traverse-append f (x ∷ xs) ys =
      rw (traverse-append f xs ys) (cons-append (f x) (traverse f xs) (traverse f ys))

  -- What a successful traversal returns, element by element.
  pub traverse-map :
      (f : A → Result B E) {C : Type 0} (g : B → C) (k : A → C) (xs : List A) (ys : List B)
      → ((x : A) (y : B) → f x ≡ ok y → g y ≡ k x)
      → traverse f xs ≡ ok ys
      → map g ys ≡ map k xs
  unfolding traverse
  traverse-map f g k [] ys agree h = rw (← ok-injective h)
  traverse-map f g k (x ∷ xs) ys agree h =
      let (y, first, h') = >>=-eq-ok (f x) _ h in
      let (ys', others, h'') = >>=-eq-ok (traverse f xs) _ h' in
      rw (← ok-injective h'', agree x y first, traverse-map f g k xs ys' agree others)

-- Inversion of a successful traversal of a list that is not empty.
pub traverse-cons :
    {A B E : Type 0} (f : A → Result B E) (x : A) (xs : List A) {zs : List B}
    → traverse f (x ∷ xs) ≡ ok zs
    → (y : B) × (ys : List B) × (f x ≡ ok y) × (traverse f xs ≡ ok ys) × (zs ≡ y ∷ ys)
unfolding traverse
traverse-cons f x xs h =
    let (y, first, h') = >>=-eq-ok (f x) _ h in
    let (ys, others, h'') = >>=-eq-ok (traverse f xs) _ h' in
    (y, ys, first, others, sym (ok-injective h''))

-- `Vec::concat`.
abbrev pub concat : {R : Type 0} → List (List R) → List R
concat [] = []
concat (rows ∷ parts) = rows ++ concat parts

module _ {R E : Type 0} where
  -- Rows found so far, and behind them those of every part.
  abbrev pub with_parts : List R → Result (List (List R)) E → Result (List R) E
  with_parts results m = do parts ← m; ok (results ++ concat parts)

  -- One more part: `k` goes on with the rows found so far.
  pub with_parts-cons :
      (results : List R) (m : Result (List R) E) (n : Result (List (List R)) E)
      (k : List R → Result (List R) E)
      → ((rows : List R) → k rows ≡ with_parts rows n)
      → ((do rows ← m; ok (results ++ rows)) >>= k)
        ≡ with_parts results (do rows ← m; parts ← n; ok (rows ∷ parts))
  with_parts-cons results (ok rows) (ok parts) k goes =
      goes (results ++ rows) ∙ ap ok (append_assoc results rows (concat parts))
  with_parts-cons results (ok rows) (err e) k goes = goes (results ++ rows)
  with_parts-cons results (err e) n k goes = refl
