-- ===== src/Lib.antt =====
-- The DeepBook indexer and API server of this repository (the Rust code under deepbookv3/crates).
--
-- The indexer reads checkpoints of the Sui chain. For each of its pipelines a handler turns the events of
-- one Move type into rows of a PostgreSQL table. The server answers HTTP requests from these tables. The
-- two share the row types of the crate `schema`, and nothing else.
--
-- Which file models what:
--
--   Prelude          numbers, texts, lists, `Result`, `HashMap`, parsing: what Rust's standard library
--                    does at the places where the program uses it. `Prelude.Words` has the casts between
--                    `u64` and `i64`, and arithmetic as a release build does it, which wraps;
--                    `Prelude.Json` what `serde_json` values are, `Prelude.Transfer` lists in which a
--                    projection repeats no value, `Prelude.Entries` maps made of such lists.
--   Schema.Row       crates/schema/src/models.rs: one record for each row.
--   Indexer.Sdk      the parsers and printers of the Sui crates, as a record that the definitions take.
--   Indexer.Config   crates/indexer/src/lib.rs: environments, package addresses, module lists.
--   Indexer.Event    crates/indexer/src/models.rs: one record for each Move event.
--   Indexer.ConfigJson  the JSON of the configuration structs of crates/indexer/src/models.rs.
--   Indexer.MoveStruct  crates/indexer/src/traits.rs: `matches_event_type`.
--   Indexer.Chain    crates/indexer/src/handlers/mod.rs: `EventMeta`, `is_deepbook_tx`, and the parts of a
--                    checkpoint that the code reads.
--   Indexer.Handler, Indexer.Process, Indexer.Commit
--                    the macro `define_handler!` of handlers/mod.rs: its parameters, `process`, `commit`.
--   Indexer.Handlers one record for each handler of crates/indexer/src/handlers: the row of an event.
--   Indexer.OrderUpdate, Indexer.TradeParams
--                    order_update_handler.rs and trade_params_update_handler.rs, written out by hand.
--   Indexer.Pipelines  crates/indexer/src/main.rs: which handlers each package registers.
--   Server.Error     crates/server/src/error.rs.
--   Server.Params, Server.Status, Server.Volume, Server.Interval, Server.TradeId, Server.Decimals,
--   Server.Orderbook, Server.Deposits
--                    endpoints of crates/server/src/server.rs, each behind its queries.
--   Server.Reader    crates/server/src/reader.rs: the queries, with their counters.
--   Server.Events    the endpoints of server.rs that return the rows of one margin table.
--   Server.Trades, Server.Orders
--                    `trades`, `order_updates` and `orders` of server.rs.
--   Server.Ticker, Server.PriceChange
--                    `ticker`, `price_change_24h` and `high_low_prices_24h` of server.rs.
--   Server.NetDeposits  `get_net_deposits` of server.rs, the query of the net deposits in crates/server/src/reader.rs, and the view that
--                    it reads, crates/schema/migrations/2026-01-15-234908-0000_add_net_deposits_view.
--   Server.Admin     crates/server/src/admin/auth.rs, and the admin tokens of `AppState`.
--   Server.Writer    crates/server/src/writer.rs, and the requests of admin/handlers.rs.
--   Server.Poller    crates/server/src/margin_metrics/poller.rs.
--   Server.MarginRpc  crates/server/src/margin_metrics/rpc_client.rs.
--   Server.MarginMetrics  crates/server/src/margin_metrics/metrics.rs: `update_pool_metrics`.
--   Tests            concrete runs.
--
-- How the code corresponds to the model. An `async` function is the function of its results: a query or a
-- remote call is a parameter, as are BCS decoding, the clock, and the rate limiter. `?` is the bind of
-- `Result`; an `unwrap` that can fail is the error `panic`. A loop with a vector of results is a recursion
-- with an accumulator. A field `package` is `package_id` here, since that word is reserved. Type parameters
-- of Move types are left out, as the comparison of event types drops them. Logging is left out.
--
-- Bounds and fuel. The loop over intervals runs on fuel, and `loop_terminates` says how much is enough.
-- `show_ℕ` and `trim_start_matches` use fuel that is the number, or the count of characters, itself.
--
-- Interfaces. `Indexer.Commit.Table` states what `INSERT ... ON CONFLICT DO NOTHING` does to a table with a
-- primary key, and `Server.Writer.Database` what the admin's `UPDATE` and `DELETE` do; both are what
-- PostgreSQL and diesel document, and Tests has an instance of each. So are `Server.Reader.Table`, a
-- `SELECT` with filters, an order and a limit, and the `LIKE` of its patterns; `IsStatusAnswer` of
-- `Server.Reader.Orders`, the answer of a `DISTINCT ON` query; `Indexer.Pipelines.Framework`, the
-- registration of pipelines; and `Server.MarginRpc.SuiClient`, the simulation of a transaction.
--
-- What is not modelled: the endpoints summary, assets, ohclv, supplies and margin
-- managers with the SQL text of their queries; the evaluation of floating point expressions, which the
-- models keep as expressions; argument parsing, start-up and the routes of the other endpoints; schema.rs,
-- which diesel generates; and the Move packages and the frontend, which are other programs in other
-- languages.
pub mod Prelude
pub mod Schema
pub mod Indexer
pub mod Server
pub mod Tests
