-- ===== src/Server/Admin/Laws.antt =====
-- Who gets past the admin middleware (deepbookv3/crates/server/src/admin/auth.rs).
use rain_protocol.Prelude.{
  ℕ, zero, suc, String, Bool, true, false, List, [], ◌∷◌, any, Option, none, some, str_eq, eq_iff,
  ◌≡◌, ◌↔◌, refl, sym, ap, ◌∙◌, arith, Bool-cases, inl, inr, Among, if◌then◌else◌,
}
use rain_protocol.Prelude.Text.{starts_with, strip_prefix, trim_start_matches}
use rain_protocol.Prelude.Prefix.{
  repeat_onto, starts_with-append, trim_start_matches-repeat_onto, trim_start_matches-eq,
}
use rain_protocol.Prelude.Result.{Result, ok, err, ok-injective}
use rain_protocol.Server.Admin.{
  is_valid_admin_token, StatusCode, unauthorized_, too_many_requests, auth_failure_rate_limited,
  require_admin_auth,
}

valid_iff :
    (tokens : List String) (t : String) → (is_valid_admin_token tokens t ≡ true) ↔ Among t tokens
unfolding is_valid_admin_token
valid_iff tokens t = (there tokens, back tokens)
  where
    there : (ts : List String) → any (λ u. str_eq u t) ts ≡ true → Among t ts
    there [] h = cc
    there (u ∷ ts) h = elim (Bool-cases (str_eq u t)) [
      | inl e ↦ inl ((eq_iff u t).0 e)
      | inr e ↦ inr (there ts (simp e at h))
    ]

    back : (ts : List String) → Among t ts → any (λ u. str_eq u t) ts ≡ true
    back [] h = absurd h
    back (u ∷ ts) (inl e) = rw ((eq_iff u t).1 e)
    back (u ∷ ts) (inr h) = rw (back ts h) (ground arith)

-- A header of one copy or more of the scheme and a token of the list that does not begin with it.
abbrev pub IsAuthorized : List String → Option String → Type 0
IsAuthorized tokens header =
    (k : ℕ) × (token : String) × (header ≡ some (repeat_onto (suc k) "Bearer " token))
    × Among token tokens
    × (strip_prefix "Bearer " token ≡ none)

rejected :
    {R : Type 0} {r : R} (b : Bool)
    → Path (Result R StatusCode) (if b then err unauthorized_ else err too_many_requests) (ok r)
    → ⊥
rejected true h = cc
rejected false h = cc

rejection :
    {R : Type 0} {e : StatusCode} (b : Bool)
    → Path (Result R StatusCode) (if b then err unauthorized_ else err too_many_requests) (err e)
    → e ≡ (if b then unauthorized_ else too_many_requests)
rejection true h = cc
rejection false h = cc

both : (a b : Bool) → (if a then b else false) ≡ true → (a ≡ true) × (b ≡ true)
both a b h = ground arith

-- A header with the prefix has one copy of it at least.
copies :
    (header : String) (k : ℕ) (token : String)
    → header ≡ repeat_onto k "Bearer " token
    → strip_prefix "Bearer " token ≡ none
    → starts_with header "Bearer " ≡ true
    → (k' : ℕ) × (k ≡ suc k')
unfolding starts_with
copies header zero token e whole prefixed =
    absurd (cc (ap (λ s. starts_with s "Bearer ") e, whole, prefixed))
copies header (suc k) token e whole prefixed = (k, refl)

module _ {L S R : Type 0} (check : L → Bool × L) (next : S → R × S)
    (admin_tokens : List String) where
  -- The middleware with its test made plain.
  test : Option String → Bool
  test none = false
  test (some header) =
      if starts_with header "Bearer "
      then is_valid_admin_token admin_tokens (trim_start_matches "Bearer " header)
      else false

  test_iff : (header : Option String) → (test header ≡ true) ↔ IsAuthorized admin_tokens header
  unfolding test
  test_iff header = (there header, back header)
    where
      there : (header : Option String) → test header ≡ true → IsAuthorized admin_tokens header
      there none h = cc
      there (some header) h =
          let (prefixed, valid) = both _ _ h in
          let token = trim_start_matches "Bearer " header in
          let (k, e, whole) = trim_start_matches-eq _ _ header in
          let (k', more) = copies header k token e whole prefixed in
          (
            k',
            token,
            ap some (e ∙ ap (λ n. repeat_onto n "Bearer " token) more),
            (valid_iff admin_tokens token).0 valid,
            whole,
          )

      back : (header : Option String) → IsAuthorized admin_tokens header → test header ≡ true
      back header (k, token, e, known, whole) = rw (
        e,
        starts_with-append "Bearer " (repeat_onto k "Bearer " token),
        trim_start_matches-repeat_onto _ _ token (suc k) whole,
        (valid_iff admin_tokens token).1 known,
      )

  require_admin_auth-test :
      (header : Option String) (limiter : L) (s : S)
      → require_admin_auth check next admin_tokens header limiter s ≡ (
          if test header
          then (ok (next s).0, (limiter, (next s).1))
          else auth_failure_rate_limited check next admin_tokens limiter s)
  unfolding require_admin_auth test
  require_admin_auth-test header limiter s = ground arith

  -- The middleware answers with the handler behind it exactly if the header is one copy or more of
  -- "Bearer " followed by a token of the list that does not itself begin with "Bearer "; the answer
  -- and the handlers' state are then those of that handler, and the limiter is untouched. Otherwise
  -- the handlers' state stays as it is, the limiter is checked once, and the answer is 401 if it
  -- allows the attempt and 429 if not.
  pub require_admin_auth-IsAuthorized :
      (header : Option String) (limiter : L) (s : S)
      → let (result, (limiter', s')) =
          require_admin_auth check next admin_tokens header limiter s in
        (((r : R) × (result ≡ ok r)) ↔ IsAuthorized admin_tokens header)
        × ((r : R) → result ≡ ok r → ((r, s') ≡ next s) × (limiter' ≡ limiter))
        × ((e : StatusCode)
            → result ≡ err e
            → (s' ≡ s)
              × (limiter' ≡ (check limiter).1)
              × (e ≡ (if (check limiter).0 then unauthorized_ else too_many_requests)))
  unfolding auth_failure_rate_limited
  require_admin_auth-IsAuthorized header limiter s = elim (Bool-cases (test header)) [
    | inl passes ↦
        rw (require_admin_auth-test header limiter s, passes)
          (
            (λ _. (test_iff header).0 passes, λ _. ((next s).0, refl)),
            λ r h. (ap (λ x. (x, (next s).1)) (sym (ok-injective h)), refl),
            λ e h. cc,
          )
    | inr fails ↦
        rw (require_admin_auth-test header limiter s, fails)
          (
            (
              λ (r, h). absurd (rejected _ h),
              λ authorized. absurd (cc ((test_iff header).1 authorized, fails)),
            ),
            λ r h. absurd (rejected _ h),
            λ e h. (refl, refl, rejection _ h),
          )
  ]
