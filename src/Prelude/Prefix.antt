-- ===== src/Prelude/Prefix.antt =====
-- What `strip_prefix` and `trim_start_matches` take away.
use Prim.Native.Char.{Char, code}
use Prim.Native.String.{String, [], ◌∷◌, ◌++◌ as ◌<>◌}
use text.Mathlib.TextLemmas.{nil-append, cons-append}
use text.Mathlib.TextEquality.{Char-path}
use mathlib.Core.Path.{◌≡◌, refl, sym, ap, ◌∙◌}
use mathlib.Core.Logic.{inl, inr}
use mathlib.Core.Bool.{true}
use mathlib.Core.Option.{none, some}
use Prim.Native.Nat.{ℕ, zero, suc, ◌+◌, ◌≤◌}
use native.Mathlib.Omega.{arith}
use rain_protocol.Prelude.Tests.{◌==◌, ==_iff, Bool-cases, Option-cases}
use rain_protocol.Prelude.Text.{
  starts_with, strip_prefix, char_count, trim_matches, trim_start_matches,
}

pub strip_prefix-eq : (p s : String) {r : String} → strip_prefix p s ≡ some r → s ≡ p <> r
unfolding strip_prefix
strip_prefix-eq [] s h = let same : s ≡ _ = cc in same ∙ sym (nil-append _)
strip_prefix-eq (c ∷ p) [] h = cc
strip_prefix-eq (c ∷ p) (d ∷ s) h = elim (Bool-cases (code c == code d)) [
  | inl same ↦
      let first = Char-path c d ((==_iff (code c) (code d)).0 same) in
      rw (cons-append, first) (ap (λ rest. d ∷ rest) (strip_prefix-eq p s (simp same at h)))
  | inr other ↦ absurd (ground arith)
]

pub strip_prefix-append : (p r : String) → strip_prefix p (p <> r) ≡ some r
unfolding strip_prefix
strip_prefix-append [] r = ap some (nil-append r)
strip_prefix-append (c ∷ p) r =
    rw (cons-append, (==_iff (code c) (code c)).1 refl) (strip_prefix-append p r)

pub starts_with-append : (p r : String) → starts_with (p <> r) p ≡ true
unfolding starts_with
starts_with-append p r = rw (strip_prefix-append p r, starts_with) refl

char_count-append : (s t : String) → char_count (s <> t) ≡ char_count s + char_count t
char_count-append [] t = rw nil-append (omega arith)
char_count-append (c ∷ s) t = rw cons-append (omega (arith, char_count-append s t))

-- k copies of `p` in front of `t`.
abbrev pub repeat_onto : ℕ → String → String → String
repeat_onto zero p t = t
repeat_onto (suc k) p t = p <> repeat_onto k p t

trim_matches-repeat :
    (p t : String)
    → strip_prefix p t ≡ none
    → (fuel k : ℕ) → k ≤ fuel
    → trim_matches fuel p (repeat_onto k p t) ≡ t
unfolding trim_matches
trim_matches-repeat p t whole zero zero h = refl
trim_matches-repeat p t whole zero (suc k) h = absurd (omega arith)
trim_matches-repeat p t whole (suc fuel) zero h = rw (whole, trim_matches) refl
trim_matches-repeat p t whole (suc fuel) (suc k) h =
    rw (strip_prefix-append p (repeat_onto k p t), trim_matches)
      (trim_matches-repeat p t whole fuel k (omega arith))

trim_matches-eq :
    (p : String) (fuel : ℕ) (s : String) → (k : ℕ) × (s ≡ repeat_onto k p (trim_matches fuel p s))
unfolding trim_matches
trim_matches-eq p zero s = (0, refl)
trim_matches-eq p (suc fuel) s = elim (Option-cases (strip_prefix p s)) [
  | inl e ↦ (0, rw (e, trim_matches) refl)
  | inr (r, e) ↦
      let (k, eq) = trim_matches-eq p fuel r in
      (suc k, rw (e, trim_matches) (strip_prefix-eq p s e ∙ ap (λ rest. p <> rest) eq))
]

-- With as much fuel as characters, no copy of a pattern that is not empty is left in front.
trim_matches_whole :
    (c : Char) (p : String) (fuel : ℕ) (s : String)
    → char_count s ≤ fuel
    → strip_prefix (c ∷ p) (trim_matches fuel (c ∷ p) s) ≡ none
unfolding trim_matches strip_prefix
trim_matches_whole c p zero [] h = refl
trim_matches_whole c p (suc fuel) [] h = refl
trim_matches_whole c p zero (d ∷ s) h = absurd (omega arith)
trim_matches_whole c p (suc fuel) (d ∷ s) h = elim (Option-cases (strip_prefix (c ∷ p) (d ∷ s))) [
  | inl e ↦ rw (e, trim_matches) e
  | inr (r, e) ↦
      let count = ap char_count (strip_prefix-eq (c ∷ p) (d ∷ s) e) ∙ char_count-append (c ∷ p) r in
      rw (e, trim_matches) (trim_matches_whole c p fuel r (omega (arith, count)))
]

repeat_onto_count : (c : Char) (p t : String) (k : ℕ) → k ≤ char_count (repeat_onto k (c ∷ p) t)
repeat_onto_count c p t zero = omega arith
repeat_onto_count c p t (suc k) =
    rw (char_count-append (c ∷ p) (repeat_onto k (c ∷ p) t))
      (omega (arith, repeat_onto_count c p t k))

module _ (c : Char) (p : String) where
  -- Every copy of the pattern in front is taken away, and nothing else.
  pub trim_start_matches-repeat_onto :
      (t : String) (k : ℕ)
      → strip_prefix (c ∷ p) t ≡ none
      → trim_start_matches (c ∷ p) (repeat_onto k (c ∷ p) t) ≡ t
  unfolding trim_start_matches
  trim_start_matches-repeat_onto t k whole =
      trim_matches-repeat (c ∷ p) t whole _ k (repeat_onto_count c p t k)

  pub trim_start_matches-eq :
      (s : String)
      → (k : ℕ) × (s ≡ repeat_onto k (c ∷ p) (trim_start_matches (c ∷ p) s))
        × (strip_prefix (c ∷ p) (trim_start_matches (c ∷ p) s) ≡ none)
  unfolding trim_start_matches
  trim_start_matches-eq s =
      let (k, e) = trim_matches-eq (c ∷ p) (char_count s) s in
      (k, e, trim_matches_whole c p (char_count s) s (omega arith))
