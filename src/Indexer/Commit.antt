-- ===== src/Indexer/Commit.antt =====
-- `commit` of the handlers (deepbookv3/crates/indexer/src/handlers/mod.rs). The table is
-- PostgreSQL's: an interface with the documented effect of `ON CONFLICT DO NOTHING` on a table with
-- a primary key, which is all that the handlers rely on.
use rain_protocol.Prelude.{
  ℕ, String, true, false, List, [], ◌∷◌, Option, none, some, find, map, str_eq, eq_iff, eq_refl,
  ◌≡◌, ◌≢◌, ◌⊎◌, refl, All, Distinct, Bool-cases, inl, inr,
}
use rain_protocol.Prelude.Result.{ok}
use rain_protocol.Indexer.Sdk.{Bytes, Sdk}
use rain_protocol.Indexer.Config.{DeepbookEnv, package_ids, package_addresses}
use rain_protocol.Indexer.Chain.{Checkpoint}
use rain_protocol.Indexer.Handler.{Handler}
use rain_protocol.Indexer.Process.{process}
use rain_protocol.Indexer.Process.Digests.{IsKeyed, HasSeparateDigests, process-keys-Distinct}

-- The first row of a batch with a key.
abbrev pub first_with : {R : Type 0} → (R → String) → String → List R → Option R
first_with key k rows = find (λ row. str_eq (key row) k) rows

abbrev pub or_else : {R : Type 0} → Option R → Option R → Option R
or_else (some r) other = some r
or_else none other = other

pub record Table (R : Type 0) (key : R → String) : Type 1 where
  pub State : Type 0
  pub lookup : String → State → Option R
  -- `insert_into(table).values(values).on_conflict_do_nothing().execute(conn)`, and the row count.
  pub insert_or_ignore : List R → State → State × ℕ
  -- A key that is taken keeps its row; a new key gets the first row of the batch that has it.
  pub lookup-insert :
      (k : String) (values : List R) (s : State)
      → lookup k (insert_or_ignore values s).0 ≡ or_else (lookup k s) (first_with key k values)

module _ {E R : Type 0} (h : Handler E R) (table : Table R h.key) where
  open table use {State, lookup, insert_or_ignore, lookup-insert}

  unfoldable pub commit : List R → State → State × ℕ
  commit values s = insert_or_ignore values s

  or_else_again : (a b : Option R) → or_else (or_else a b) b ≡ or_else a b
  or_else_again none none = refl
  or_else_again none (some b) = refl
  or_else_again (some a) b = refl

  -- To commit the same rows once more, as after a restart, changes the row of no key.
  pub commit-commit :
      (values : List R) (s : State) (k : String)
      → lookup k (commit values (commit values s).0).0 ≡ lookup k (commit values s).0
  unfolding commit
  commit-commit values s k = rw (lookup-insert, lookup-insert) (or_else_again (lookup k s) _)

  -- A row is never replaced.
  pub commit_keeps :
      (values : List R) (s : State) (k : String) (row : R)
      → lookup k s ≡ some row
      → lookup k (commit values s).0 ≡ some row
  unfolding commit
  commit_keeps values s k row present = rw (lookup-insert, present)

  -- In a batch with different keys each row is the first one with its key.
  first_with_own :
      (rows : List R)
      → Distinct (map h.key rows)
      → All (λ row. first_with h.key (h.key row) rows ≡ some row) rows
  first_with_own [] d = tt
  first_with_own (r ∷ rest) (fresh, d) = (rw eq_refl, others rest fresh (first_with_own rest d))
    where
      others :
          (rows : List R)
          → All (λ k. h.key r ≢ k) (map h.key rows)
          → All (λ row. first_with h.key (h.key row) rest ≡ some row) rows
          → All (λ row. first_with h.key (h.key row) (r ∷ rest) ≡ some row) rows
      others [] apart found = tt
      others (q ∷ qs) (ne, apart) (e, found) =
          (skip (Bool-cases (str_eq (h.key r) (h.key q))), others qs apart found)
        where
          skip :
              (str_eq (h.key r) (h.key q) ≡ true) ⊎ (str_eq (h.key r) (h.key q) ≡ false)
              → first_with h.key (h.key q) (r ∷ rest) ≡ some q
          skip (inl same) = absurd (ne ((eq_iff _ _).0 same))
          skip (inr differs) = rw differs e

  stored_at :
      (s : State) (batch rows : List R)
      → All (λ row. lookup (h.key row) s ≡ none) rows
      → All (λ row. first_with h.key (h.key row) batch ≡ some row) rows
      → All (λ row. lookup (h.key row) (commit batch s).0 ≡ some row) rows
  unfolding commit
  stored_at s batch [] free found = tt
  stored_at s batch (row ∷ rest) (absent, free) (first, found) =
      (rw (lookup-insert, absent) first, stored_at s batch rest free found)

  -- Under the conditions of `process-keys-Distinct`, and on a table that has none of their keys yet,
  -- every row that `process` returns can be looked up by its key after `commit`.
  pub process-commit :
      (sdk : Sdk) (from_bytes : Bytes → Option E) (env : DeepbookEnv)
      (addresses packages : List Bytes)
      → package_addresses sdk env ≡ ok addresses
      → package_ids sdk env ≡ ok packages
      → IsKeyed h
      → (checkpoint : Checkpoint) → HasSeparateDigests checkpoint.transactions
      → (rows : List R) → process sdk h from_bytes env checkpoint ≡ ok rows
      → (s : State) → All (λ row. lookup (h.key row) s ≡ none) rows
      → All (λ row. lookup (h.key row) (commit rows s).0 ≡ some row) rows
  process-commit sdk from_bytes env addresses packages parsed ids keyed checkpoint separate rows
        done s free =
      stored_at s rows rows free (
        first_with_own rows (
          process-keys-Distinct sdk h from_bytes env addresses packages parsed ids keyed checkpoint
            separate rows done))
