-- ===== src/Server/Writer.antt =====
-- deepbookv3/crates/server/src/writer.rs and admin/handlers.rs: the admin's changes of the tables
-- `pools` and `assets`. The database is an interface with the documented effect of the statements.
pub mod Laws
use rain_protocol.Prelude.{
  ℕ, String, ◌<>◌, Bool, true, false, not, List, [], ◌∷◌, map, keep, length, Option, none, some,
  unwrap_or, str_eq, ◌==◌, if◌then◌else◌, ◌≡◌,
}
use rain_protocol.Prelude.Int.{ℤ}
use rain_protocol.Prelude.Result.{Result, ok, err, ◌>>=◌}
use rain_protocol.Schema.Row.Api.{Pools}
use rain_protocol.Server.Error.{DeepBookError, not_found, database}

-- The request of `create_pool` has the columns of a row of `pools`.
abbrev pub CreatePoolRequest : Type 0
CreatePoolRequest = Pools

pub record UpdatePoolRequest : Type 0 where
  pub pool_name : Option String
  pub min_size : Option ℤ
  pub lot_size : Option ℤ
  pub tick_size : Option ℤ

pub record CreateAssetRequest : Type 0 where
  pub asset_type : String
  pub name : String
  pub symbol : String
  pub decimals : ℤ
  pub ucid : Option ℤ
  pub package_id : Option String
  pub package_address_url : Option String

pub record PoolChangeset : Type 0 where
  pub pool_name : Option String
  pub min_size : Option ℤ
  pub lot_size : Option ℤ
  pub tick_size : Option ℤ

abbrev pub to_changeset : UpdatePoolRequest → PoolChangeset
to_changeset req = record {
  pool_name = req.pool_name;
  min_size = req.min_size;
  lot_size = req.lot_size;
  tick_size = req.tick_size;
}

-- The statements that the writer builds.
pub data Statement : Type 0 where
  insert_pool : Pools → Statement
  update_pools : String → PoolChangeset → Statement
  delete_pools : String → Statement
  insert_asset : CreateAssetRequest → Statement
  delete_assets : String → Statement

abbrev pub has_id : String → Pools → Bool
has_id id p = str_eq p.pool_id id

abbrev pub has_type : String → CreateAssetRequest → Bool
has_type id a = str_eq a.asset_type id

-- The effect of a changeset on a row: a field that is `None` is left alone.
abbrev pub changed : PoolChangeset → Pools → Pools
changed c p = record p {
  pool_name = unwrap_or p.pool_name c.pool_name;
  min_size = unwrap_or p.min_size c.min_size;
  lot_size = unwrap_or p.lot_size c.lot_size;
  tick_size = unwrap_or p.tick_size c.tick_size;
}

pub record Database : Type 1 where
  pub State : Type 0
  pub pools : State → List Pools
  pub assets : State → List CreateAssetRequest
  -- `db.connect()`, with the text of its error.
  pub connect : State → Result Unit String
  -- `execute(&mut conn)`: the number of rows affected. A statement that fails changes nothing.
  pub execute : Statement → State → Result (ℕ × State) String
  pub execute-update_pools :
      (id : String) (c : PoolChangeset) (s s' : State) (n : ℕ)
      → execute (update_pools id c) s ≡ ok (n, s')
      → (n ≡ length (keep (has_id id) (pools s)))
        × (pools s' ≡ map (λ p. if has_id id p then changed c p else p) (pools s))
        × (assets s' ≡ assets s)
  pub execute-delete_pools :
      (id : String) (s s' : State) (n : ℕ)
      → execute (delete_pools id) s ≡ ok (n, s')
      → (n ≡ length (keep (has_id id) (pools s)))
        × (pools s' ≡ keep (λ p. not (has_id id p)) (pools s))
        × (assets s' ≡ assets s)
  pub execute-delete_assets :
      (id : String) (s s' : State) (n : ℕ)
      → execute (delete_assets id) s ≡ ok (n, s')
      → (n ≡ length (keep (has_type id) (assets s)))
        × (assets s' ≡ keep (λ a. not (has_type id a)) (assets s))
        × (pools s' ≡ pools s)

-- What the handlers answer with.
abbrev pub AdminResponse : Type 0
AdminResponse = String

-- `if rows_affected == 0 { return Err(not_found(...)) }`.
abbrev pub found_or : String → ℕ → Result Unit DeepBookError
found_or what rows_affected = if rows_affected == 0 then err (not_found what) else ok tt

module _ (db : Database) where
  open db use {State, connect, execute}

  -- Connects, executes one statement, and judges the number of rows affected.
  abbrev pub run_statement :
      Statement → (ℕ → Result Unit DeepBookError) → State → Result Unit DeepBookError × State
  run_statement statement judge s = elim (connect s) [
    | err e ↦ (err (database e), s)
    | ok _ ↦ elim (execute statement s) [
      | err e ↦ (err (database e), s)
      | ok (n, s') ↦ (judge n, s')
    ]
  ]

  unfoldable pub create_pool : CreatePoolRequest → State → Result Unit DeepBookError × State
  create_pool req s = run_statement (insert_pool req) (λ n. ok tt) s

  unfoldable pub update_pool :
      String → UpdatePoolRequest → State → Result Unit DeepBookError × State
  update_pool id req s =
      run_statement (update_pools id (to_changeset req)) (found_or ("pool " <> id)) s

  unfoldable pub delete_pool : String → State → Result Unit DeepBookError × State
  delete_pool id s = run_statement (delete_pools id) (found_or ("pool " <> id)) s

  unfoldable pub create_asset : CreateAssetRequest → State → Result Unit DeepBookError × State
  create_asset req s = run_statement (insert_asset req) (λ n. ok tt) s

  unfoldable pub delete_asset : String → State → Result Unit DeepBookError × State
  delete_asset id s = run_statement (delete_assets id) (found_or ("asset " <> id)) s
