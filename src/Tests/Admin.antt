-- ===== src/Tests/Admin.antt =====
-- The admin middleware and the writer at concrete requests.
use rain_protocol.Prelude.{
  ℕ, zero, suc, String, Bool, true, false, not, List, [], ◌∷◌, ◌++◌, ◌<>◌, none, some, map, any,
  keep, length, if◌then◌else◌, ◌≡◌, ◌↔◌, sym, ap,
}
use rain_protocol.Prelude.Int.{pos}
use rain_protocol.Prelude.Result.{ok, err, ok-injective}
use rain_protocol.Schema.Row.Api.{Pools}
use rain_protocol.Server.Error.{not_found, database}
use rain_protocol.Server.Admin.{StatusCode, unauthorized_, require_admin_auth}
use rain_protocol.Server.Admin.Laws.{IsAuthorized, require_admin_auth-IsAuthorized}
use rain_protocol.Server.Writer.{
  Database, Statement, insert_pool, update_pools, delete_pools, insert_asset, delete_assets,
  CreateAssetRequest, UpdatePoolRequest, has_id, has_type, changed, update_pool,
}
use rain_protocol.Tests.Data.{pool_row}
use rain_protocol.Server.Writer.Laws.{
  updated, update_pool_lem, IsPoolDeletion, IsAssetDeletion, deletions_lem,
}

-- A limiter that counts down.
abbrev check : ℕ → Bool × ℕ
check zero = (false, 0)
check (suc n) = (true, n)

abbrev next : List String → String × List String
next log = ("created", "pool" ∷ log)

require_admin_auth-IsAuthorized_example :
    let (result, (limiter', s')) =
      require_admin_auth check next ("s3cret" ∷ []) (some "Bearer s3cret") 10 [] in
    (((r : String) × (result ≡ ok r)) ↔ IsAuthorized ("s3cret" ∷ []) (some "Bearer s3cret"))
    × ((r : String) → result ≡ ok r → ((r, s') ≡ next []) × (limiter' ≡ 10))
    × ((e : StatusCode) → result ≡ err e → (s' ≡ []) × (limiter' ≡ 9) × (e ≡ unauthorized_))
require_admin_auth-IsAuthorized_example =
    require_admin_auth-IsAuthorized check next ("s3cret" ∷ []) (some "Bearer s3cret") 10 []

abbrev Rows : Type 0
Rows = List Pools × List CreateAssetRequest

-- A database in memory. An insertion puts its row last, and never fails.
abbrev run : Statement → Rows → ℕ × Rows
run (insert_pool row) (ps, ts) = (1, (ps ++ (row ∷ []), ts))
run (update_pools id c) (ps, ts) =
    (length (keep (has_id id) ps), (map (λ p. if has_id id p then changed c p else p) ps, ts))
run (delete_pools id) (ps, ts) =
    (length (keep (has_id id) ps), (keep (λ p. not (has_id id p)) ps, ts))
run (insert_asset row) (ps, ts) = (1, (ps, ts ++ (row ∷ [])))
run (delete_assets id) (ps, ts) =
    (length (keep (has_type id) ts), (ps, keep (λ a. not (has_type id a)) ts))

abbrev memory : Database
memory = record {
  State = Rows;
  pools = λ s. s.0;
  assets = λ s. s.1;
  connect = λ s. ok tt;
  execute = λ st s. ok (run st s);
  execute-update_pools = λ id c s s' n e. (
    sym (ap (λ r. r.0) (ok-injective e)),
    sym (ap (λ r. r.1.0) (ok-injective e)),
    sym (ap (λ r. r.1.1) (ok-injective e)),
  );
  execute-delete_pools = λ id s s' n e. (
    sym (ap (λ r. r.0) (ok-injective e)),
    sym (ap (λ r. r.1.0) (ok-injective e)),
    sym (ap (λ r. r.1.1) (ok-injective e)),
  );
  execute-delete_assets = λ id s s' n e. (
    sym (ap (λ r. r.0) (ok-injective e)),
    sym (ap (λ r. r.1.1) (ok-injective e)),
    sym (ap (λ r. r.1.0) (ok-injective e)),
  );
}

abbrev rows : Rows
rows = (pool_row "0x1" ∷ pool_row "0x2" ∷ [], [])

abbrev req : UpdatePoolRequest
req = record {
  pool_name = some "SUI_USDT";
  min_size = none;
  lot_size = none;
  tick_size = some (pos 10);
}

update_pool_example :
    let (result, s') = update_pool memory "0x2" req rows in
    (result ≡ ok tt
      → (any (has_id "0x2") rows.0 ≡ true)
        × (s'.0 ≡ map (λ p. if has_id "0x2" p then updated req p else p) rows.0))
    × (result ≡ err (not_found ("pool " <> "0x2"))
        → (any (has_id "0x2") rows.0 ≡ false) × (s'.0 ≡ rows.0))
    × ((text : String) → result ≡ err (database text) → s' ≡ rows)
update_pool_example = update_pool_lem memory "0x2" req rows

deletions_lem_example :
    IsPoolDeletion memory "0x1" rows × IsAssetDeletion memory "0x2::sui::SUI" rows
deletions_lem_example = deletions_lem memory "0x1" "0x2::sui::SUI" rows
