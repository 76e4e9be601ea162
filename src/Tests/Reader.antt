-- ===== src/Tests/Reader.antt =====
-- Instances of the properties of the reader's endpoints at small tables.
use rain_protocol.Prelude.{◌⊎◌, ℕ, ◌≡◌, refl, String, [], ◌∷◌}
use rain_protocol.Prelude.Int.{pos}
use rain_protocol.Prelude.Result.{ok, err}
use rain_protocol.Schema.Row.MarginManager.{LoanBorrowed}
use rain_protocol.Server.Error.{internal, into_response}
use rain_protocol.Server.Params.{
  Params, limit, get_or_default, start_time_or_day, end_time, get_i64, start_time,
}
use rain_protocol.Prelude.Map.{get}
use rain_protocol.Prelude.Parse.{parse_i64}
use rain_protocol.Prelude.Words.{mul_i64}
use rain_protocol.Server.Reader.{Table, RpcMetrics, meets_all, succeeded, failed}
use rain_protocol.Server.Reader.Latest.{IsLatest, wanted_rows, event_query}
use rain_protocol.Server.Events.Route.{Route, respond}
use rain_protocol.Server.Events.Laws.{columns_of, time_of, respond-IsLatest, respond-fails}
use rain_protocol.Tests.Tables.{table_of}

abbrev borrowed : ℕ → String → LoanBorrowed
borrowed time manager = record {
  event_digest = "d";
  digest = "d";
  sender = "s";
  checkpoint = pos 1;
  checkpoint_timestamp_ms = pos time;
  package_id = "p";
  margin_manager_id = manager;
  margin_pool_id = "pool";
  loan_amount = pos 5;
  loan_shares = pos 5;
  onchain_timestamp = pos time;
}

abbrev loans : Table LoanBorrowed
loans =
    table_of (borrowed 2000 "m" ∷ borrowed 3000 "n" ∷ borrowed 5000 "m" ∷ borrowed 4000 "m" ∷ [])

abbrev request : Params
request = ("margin_manager_id", "m") ∷ ("limit", "2") ∷ ("start_time", "1") ∷ ("end_time", "9") ∷ []

abbrev pub none_yet : RpcMetrics
none_yet = record { db_requests_succeeded = 0; db_requests_failed = 0 }

answered :
    respond Route.loan_borrowed loans (pos 0) request none_yet
    ≡ (ok (borrowed 5000 "m" ∷ borrowed 4000 "m" ∷ []), succeeded none_yet)
unfolding respond limit get_i64 get parse_i64 meets_all start_time_or_day start_time mul_i64
    end_time get_or_default
answered = refl

respond-IsLatest_example :
    IsLatest
      (wanted_rows loans
        (time_of Route.loan_borrowed)
        (columns_of Route.loan_borrowed)
        (pos 0)
        request)
      (time_of Route.loan_borrowed)
      (limit request)
      (borrowed 5000 "m" ∷ borrowed 4000 "m" ∷ [])
    × (succeeded none_yet ≡ succeeded none_yet)
respond-IsLatest_example =
    respond-IsLatest Route.loan_borrowed loans (pos 0) request none_yet (succeeded none_yet)
      (borrowed 5000 "m" ∷ borrowed 4000 "m" ∷ []) answered

-- A negative limit is refused by the database.
abbrev refused : Params
refused = ("limit", "-1") ∷ ("start_time", "1") ∷ ("end_time", "9") ∷ []

failure :
    respond Route.loan_borrowed loans (pos 0) refused none_yet
    ≡ (err (internal "LIMIT must not be negative"), failed none_yet)
unfolding respond limit get_i64 get parse_i64 start_time_or_day start_time mul_i64 end_time
    get_or_default
failure = refl

respond-fails_example :
    ((into_response (internal "LIMIT must not be negative")).status ≡ 500)
    × (((text : String) × (loans.connect ≡ err text) × (failed none_yet ≡ none_yet))
        ⊎ ((text : String) × (loans.connect ≡ ok tt)
            × (loans.get_results (
                  event_query
                    (time_of Route.loan_borrowed)
                    (columns_of Route.loan_borrowed)
                    (pos 0)
                    refused)
                ≡ err text)
            × (failed none_yet ≡ failed none_yet)))
respond-fails_example =
    respond-fails Route.loan_borrowed loans (pos 0) refused none_yet (failed none_yet)
      (internal "LIMIT must not be negative") failure
