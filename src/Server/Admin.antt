-- ===== src/Server/Admin.antt =====
-- deepbookv3/crates/server/src/admin/auth.rs, and the part of `AppState` that it uses
-- (deepbookv3/crates/server/src/server.rs): who reaches the admin handlers. Header values are texts;
-- the rate limiter of the crate `governor` is a state with a `check`.
pub mod Laws
use rain_protocol.Prelude.{
  String, Bool, true, false, not, List, [], ◌∷◌, map, any, keep, Option, none, some, str_eq,
  if◌then◌else◌,
}
use rain_protocol.Prelude.Text.{is_empty, starts_with, split, trim, trim_start_matches}
use rain_protocol.Prelude.Result.{Result, ok, err}

-- `s.split(',').map(trim).filter(not empty)`, which the admin tokens, `deposited_assets` and
-- `get_points` read their lists with.
unfoldable pub non_empty_parts : String → List String
non_empty_parts s = keep (λ t. not (is_empty t)) (map trim (split b',' s))

unfoldable pub parse_admin_tokens : Option String → List String
unfolding non_empty_parts
parse_admin_tokens none = []
parse_admin_tokens (some s) = non_empty_parts s

unfoldable pub is_valid_admin_token : List String → String → Bool
is_valid_admin_token admin_tokens token = any (λ t. str_eq t token) admin_tokens

-- A status code, of the rejections.
pub data StatusCode : Type 0 where
  too_many_requests unauthorized_ : StatusCode

-- The state of the rate limiter, `check` with the state that it leaves, the handlers behind the
-- middleware, and their state.
module _ {L S R : Type 0} (check : L → Bool × L) (next : S → R × S)
    (admin_tokens : List String) where
  unfoldable pub auth_failure_rate_limited : L → S → Result R StatusCode × (L × S)
  auth_failure_rate_limited limiter s =
      let (allowed, limiter') = check limiter in
      (if allowed then err unauthorized_ else err too_many_requests, (limiter', s))

  abbrev run_next : L → S → Result R StatusCode × (L × S)
  run_next limiter s = let (response, s') = next s in (ok response, (limiter, s'))

  unfoldable pub require_admin_auth : Option String → L → S → Result R StatusCode × (L × S)
  unfolding auth_failure_rate_limited is_valid_admin_token trim_start_matches starts_with
  require_admin_auth none limiter s = auth_failure_rate_limited limiter s
  require_admin_auth (some header) limiter s =
      if starts_with header "Bearer "
      then (if is_valid_admin_token admin_tokens (trim_start_matches "Bearer " header)
          then run_next limiter s
          else auth_failure_rate_limited limiter s)
      else auth_failure_rate_limited limiter s
