-- ===== src/Tests/OrderStatuses.antt =====
-- An order that was placed and canceled, as `orders` answers it.
use mathlib.Core.List.{Permᴰ}
use rain_protocol.Prelude.{ℕ, ◌≡◌, refl, inl, inr, true, List, [], ◌∷◌, map, some, arith}
use rain_protocol.Prelude.Int.{pos, ◌≤ℤ◌}
use rain_protocol.Prelude.Words.{as_u8}
use rain_protocol.Prelude.Map.{get}
use rain_protocol.Prelude.Parse.{parse_i64}
use rain_protocol.Prelude.Result.{ok}
use rain_protocol.Prelude.Text.{split, trim}
use rain_protocol.Schema.Row.Api.{Pools}
use rain_protocol.Schema.Row.Trading.{
  OrderUpdate, OrderStatus, OrderUpdateStatus, placed, canceled, status_text,
}
use rain_protocol.Server.Params.{Params, get_i64}
use rain_protocol.Server.Reader.{Table, equals, meets_all, succeeded}
use rain_protocol.Server.Reader.Orders.{
  Statuses, IsDistinctOn, IsStatusAnswer, in_pool, placed_in_pool, order_status, status_fits,
  current_status,
}
use rain_protocol.Server.Orders.{orders, order_value, status_filter, orders_limit}
use rain_protocol.Server.Orders.Laws.{IsRight, orders_lem}
use rain_protocol.Tests.Data.{pool_row}
use rain_protocol.Tests.Tables.{table_of}
use rain_protocol.Tests.Reader.{none_yet}

abbrev pools : Table Pools
pools = table_of (pool_row "0x1" ∷ [])

abbrev update : ℕ → OrderUpdateStatus → OrderUpdate
update time status = record {
  event_digest = "d";
  digest = "d";
  sender = "s";
  checkpoint = pos 1;
  checkpoint_timestamp_ms = pos time;
  package_id = "p";
  status = status;
  pool_id = "0x1";
  order_id = "1";
  client_order_id = pos 1;
  price = pos 3;
  is_bid = true;
  original_quantity = pos 10;
  quantity = pos 4;
  filled_quantity = pos 6;
  onchain_timestamp = pos time;
  trader = "t";
  balance_manager_id = "0xa";
}

abbrev rows : List OrderUpdate
rows = update 2000 placed ∷ update 3000 canceled ∷ []

abbrev found : List OrderStatus
found = order_status (update 2000 placed ∷ []) (update 3000 canceled) ∷ []

abbrev statuses : Statuses
statuses = record { rows = rows; connect = ok tt; load = λ pool manager asked limit. ok found }

abbrev request : Params
request = ("status", "filled, canceled") ∷ ("limit", "7") ∷ []

latest_picks :
    IsDistinctOn (in_pool "0x1" (some "0xa")) (λ a b. a ≤ℤ b) rows (update 3000 canceled ∷ [])
unfolding in_pool
latest_picks = record {
  picked = ((inr (inl refl), refl, (inr (omega arith), (inr (omega arith), tt))), tt);
  covered = (
    inr (update 3000 canceled, inl refl, refl),
    (inr (update 3000 canceled, inl refl, refl), tt),
  );
  once = (tt, tt);
}

placed_picks : IsDistinctOn (placed_in_pool "0x1") (λ a b. b ≤ℤ a) rows (update 2000 placed ∷ [])
unfolding placed_in_pool status_text
placed_picks = record {
  picked = ((inl refl, refl, (inr (omega arith), (inl refl, tt))), tt);
  covered = (inr (update 2000 placed, inl refl, refl), (inl refl, tt));
  once = (tt, tt);
}

answer : IsStatusAnswer rows "0x1" (some "0xa") (status_filter request) (orders_limit request) found
unfolding status_filter orders_limit get get_i64 parse_i64 split trim status_fits order_status
    current_status status_text
answer = record {
  latest = update 3000 canceled ∷ [];
  placed_events = update 2000 placed ∷ [];
  ordered = found;
  latest_picks = latest_picks;
  placed_picks = placed_picks;
  same = Permᴰ.cons refl Permᴰ.nil;
  newest_first = (tt, tt);
  not_negative = omega arith;
  cut = refl;
}

named : pools.get_first (equals (λ r. r.pool_name) "SUI_USDC" ∷ []) ≡ ok (pool_row "0x1")
unfolding meets_all
named = refl

orders_lem_example :
    (orders pools statuses "SUI_USDC" "0xa" request none_yet
      ≡ (ok (map (order_value 9 6) found), succeeded (succeeded none_yet)))
    × IsRight rows "0x1" (some "0xa") (status_filter request) (orders_limit request) found
unfolding as_u8
orders_lem_example =
    orders_lem pools statuses "SUI_USDC" "0xa" request none_yet (pool_row "0x1") found refl named
      refl refl answer
