-- ===== src/Server/NetDeposits/Request.antt =====
-- deepbookv3/crates/server/src/server.rs, `get_net_deposits`, and reader.rs,
-- `get_net_deposits_from_view`: the request around the query for net deposits.
use rain_protocol.Prelude.{◌<>◌, String, List, map, Option, none, some, unwrap_or, if◌then◌else◌}
use rain_protocol.Prelude.Int.{ℤ}
use rain_protocol.Prelude.Words.{mul_i64}
use rain_protocol.Prelude.Text.{split, strip_prefix, starts_with}
use rain_protocol.Prelude.Map.{HashMap, collect}
use rain_protocol.Prelude.Parse.{parse_i64}
use rain_protocol.Prelude.Result.{Result, ok, err}
use rain_protocol.Server.Error.{DeepBookError, bad_request, database}
use rain_protocol.Server.NetDeposits.{hour_bucket}
use rain_protocol.Server.Reader.{RpcMetrics, Answer, counted}

-- The connection, and the SQL query with its three parameters: the hour, the assets, and the time.
pub record View : Type 0 where
  pub connect : Result Unit String
  pub load : ℤ → List String → ℤ → Result (List (String × ℤ)) String

-- Asset names are stored without the prefix, and answered with it.
unfoldable pub cleaned_asset : String → String
unfolding strip_prefix
cleaned_asset a = unwrap_or a (strip_prefix "0x" a)

unfoldable pub with_prefix : String → String
unfolding starts_with
with_prefix asset = if starts_with asset "0x" then asset else "0x" <> asset

abbrev pub by_asset : Answer (String × ℤ) → Result (HashMap ℤ) DeepBookError × RpcMetrics
by_asset (err e, m) = (err e, m)
by_asset (ok rows, m) = (ok (collect (map (λ (asset, n). (with_prefix asset, n)) rows)), m)

-- The refresh of the view before the query is awaited, and its result is dropped.
unfoldable pub get_net_deposits_from_view :
    View → List String → ℤ → RpcMetrics → Result (HashMap ℤ) DeepBookError × RpcMetrics
unfolding with_prefix cleaned_asset hour_bucket counted collect
get_net_deposits_from_view view asset_ids timestamp_ms m = by_asset (
    counted (λ e. database ("Error fetching net deposits: " <> e)) view.connect
      (view.load (hour_bucket timestamp_ms) (map cleaned_asset asset_ids) timestamp_ms) m)

abbrev pub at_timestamp :
    Option ℤ
    → (ℤ → Result (HashMap ℤ) DeepBookError × RpcMetrics)
    → RpcMetrics
    → Result (HashMap ℤ) DeepBookError × RpcMetrics
at_timestamp none next m = (err (bad_request "Invalid timestamp"), m)
at_timestamp (some seconds) next m = next (mul_i64 1000 seconds)

unfoldable pub get_net_deposits :
    View → String → String → RpcMetrics → Result (HashMap ℤ) DeepBookError × RpcMetrics
unfolding get_net_deposits_from_view
get_net_deposits view asset_ids timestamp m =
    at_timestamp (parse_i64 timestamp)
      (λ timestamp_ms. get_net_deposits_from_view view (split b',' asset_ids) timestamp_ms m) m
