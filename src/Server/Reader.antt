-- ===== src/Server/Reader.antt =====
-- deepbookv3/crates/server/src/reader.rs: the queries of the API. PostgreSQL is an interface: what it
-- answers to a query with filters, a descending order and a limit is stated as documented.
pub mod Latest
pub mod MarginManager
pub mod MarginPool
pub mod MarginFees
pub mod MarginRegistry
pub mod Trades
pub mod Orders
use mathlib.Core.List.{Perm}
use rain_protocol.Prelude.{
  ℕ, ◌+◌, ◌≡◌, String, Bool, true, false, ◌&&◌, ◌||◌, List, [], ◌∷◌, keep, take, All, Among, Option,
  none, some, str_eq, if◌then◌else◌,
}
use rain_protocol.Prelude.Int.{ℤ, pos, ◌≤ℤ◌, leb_ℤ, pos_part}
use rain_protocol.Prelude.Text.{is_empty}
use rain_protocol.Prelude.Result.{Result, ok, err}
use rain_protocol.Server.Error.{DeepBookError, internal}

-- The two counters of `RpcMetrics` that the reader increases.
pub record RpcMetrics : Type 0 where
  pub db_requests_succeeded : ℕ
  pub db_requests_failed : ℕ

-- An empty text becomes the pattern that every text matches.
unfoldable pub to_pattern : String → String
to_pattern s = if is_empty s then "%" else s

-- A condition that a query's `filter` calls put on a row.
pub data Filter (Row : Type 0) : Type 0 where
  between : (Row → ℤ) → ℤ → ℤ → Filter Row
  like : (Row → String) → String → Filter Row
  equals : (Row → String) → String → Filter Row
  either : (Row → String) → (Row → String) → String → Filter Row
  holds : (Row → Bool) → Filter Row

-- A query with filters, `order_by(column.desc())` and a limit.
pub record Query (Row : Type 0) : Type 0 where
  pub filters : List (Filter Row)
  pub order_by_desc : Row → ℤ
  pub limit : Option ℤ

module _ {Row : Type 0} (like_op : String → String → Bool) where
  -- The meaning of the filters, with that of `LIKE` as a parameter.
  unfoldable pub meets : Filter Row → Row → Bool
  meets (between column low high) row = leb_ℤ low (column row) && leb_ℤ (column row) high
  meets (like column pattern) row = like_op (column row) pattern
  meets (equals column value) row = str_eq (column row) value
  meets (either column other value) row = str_eq (column row) value || str_eq (other row) value
  meets (holds test) row = test row

  unfoldable pub meets_all : List (Filter Row) → Row → Bool
  unfolding meets
  meets_all [] row = true
  meets_all (f ∷ filters) row = meets f row && meets_all filters row

-- Newest first: no row is newer than one before it.
abbrev pub IsNewestFirst : {Row : Type 0} → (Row → ℤ) → List Row → Type 0
IsNewestFirst time [] = Unit
IsNewestFirst time (row ∷ rows) =
    All (λ later. time later ≤ℤ time row) rows × IsNewestFirst time rows

abbrev pub limited : {Row : Type 0} → Option ℤ → List Row → List Row
limited none rows = rows
limited (some n) rows = take (pos_part n) rows

-- `LIMIT` must not be negative.
abbrev pub IsLimit : Option ℤ → Type 0
IsLimit none = Unit
IsLimit (some n) = pos 0 ≤ℤ n

-- One table, as a query finds it: its rows, the operator `LIKE`, and the two calls that can fail.
pub record Table (Row : Type 0) : Type 0 where
  pub rows : List Row
  pub like_op : String → String → Bool
  -- `db.connect()` and `query.get_results(&mut conn)`, with the texts of their errors.
  pub connect : Result Unit String
  pub get_results : Query Row → Result (List Row) String
  -- `query.first(&mut conn)` of a query with filters only.
  pub get_first : List (Filter Row) → Result Row String
  -- `%` matches every text.
  pub like_any : (s : String) → like_op s "%" ≡ true
  -- What an answered query returns: the first rows of the matching ones in the asked order. The order
  -- of rows with the same key is not determined.
  pub answer :
      (q : Query Row) (found : List Row)
      → get_results q ≡ ok found
      → IsLimit q.limit
        × ((ordered : List Row) × Perm ordered (keep (meets_all like_op q.filters) rows)
            × IsNewestFirst q.order_by_desc ordered
            × (found ≡ limited q.limit ordered))
  pub first_answer :
      (filters : List (Filter Row)) (row : Row)
      → get_first filters ≡ ok row
      → Among row (keep (meets_all like_op filters) rows)

-- What a reader's method returns, with the counters after it.
abbrev pub Answer : Type 0 → Type 0
Answer Row = Result (List Row) DeepBookError × RpcMetrics

abbrev pub succeeded : RpcMetrics → RpcMetrics
succeeded m = record m { db_requests_succeeded = m.db_requests_succeeded + 1 }

abbrev pub failed : RpcMetrics → RpcMetrics
failed m = record m { db_requests_failed = m.db_requests_failed + 1 }

module _ {Row : Type 0} where
  -- Connects, runs a query, and counts it; `to_error` makes the error of a query that fails.
  unfoldable pub counted :
      (String → DeepBookError)
      → Result Unit String
      → Result (List Row) String
      → RpcMetrics
      → Answer Row
  counted to_error (err e) res m = (err (internal e), m)
  counted to_error (ok _) (ok found) m = (ok found, succeeded m)
  counted to_error (ok _) (err e) m = (err (to_error e), failed m)

  -- `Reader::results`, and `?` on its `anyhow::Error`.
  unfoldable pub results : Table Row → Query Row → RpcMetrics → Answer Row
  unfolding counted
  results t query m = counted internal t.connect (t.get_results query) m
