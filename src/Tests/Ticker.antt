-- ===== src/Tests/Ticker.antt =====
-- The ticker, the price change and the volumes of small tables of pools.
use rain_protocol.Prelude.{
  ℕ, ◌+◌, ◌-◌, ◌^◌, ◌≡◌, ◌≢◌, refl, inl, inr, String, Bool, true, false, List, [], ◌∷◌, All, Option,
  none, some, if◌then◌else◌, eq_iff, arith,
}
use rain_protocol.Prelude.Int.{ℤ, pos, ltb_ℤ}
use rain_protocol.Prelude.Words.{sub_i64, as_u64}
use rain_protocol.Prelude.Text.{split}
use rain_protocol.Prelude.Map.{HashMap, get}
use rain_protocol.Prelude.Result.{Result, ok}
use rain_protocol.Schema.Row.Api.{Pools}
use rain_protocol.Schema.Row.Trading.{OrderFill}
use rain_protocol.Server.Error.{DeepBookError}
use rain_protocol.Server.Params.{Params, day_ms}
use rain_protocol.Server.Volume.{historical_volume}
use rain_protocol.Server.Volume.Laws.{total}
use rain_protocol.Server.Volume.ByPool.{AreApart, volumes_at, historical_volume-sums}
use rain_protocol.Server.Ticker.{Reads, TickerValue, ticker}
use rain_protocol.Server.Ticker.LastPrice.{IsLastPrice, IsLastPrices}
use rain_protocol.Server.Ticker.Laws.{IsVolumes, entry, volume_of, ticker_lem}
use rain_protocol.Server.PriceChange.{percent, pool_metadata, price_change_24h}
use rain_protocol.Server.PriceChange.Laws.{price_change_24h_lem}
use rain_protocol.Tests.Data.{pool_row}

abbrev filled : ℕ → ℕ → OrderFill
filled time price = record {
  event_digest = "d";
  digest = "d";
  sender = "s";
  checkpoint = pos 1;
  checkpoint_timestamp_ms = pos time;
  package_id = "p";
  pool_id = "0x1";
  maker_order_id = "5";
  taker_order_id = "7";
  maker_client_order_id = pos 1;
  taker_client_order_id = pos 2;
  price = pos price;
  taker_fee = pos 4;
  taker_fee_is_deep = false;
  maker_fee = pos 6;
  maker_fee_is_deep = true;
  taker_is_bid = true;
  base_quantity = pos 8;
  quote_quantity = pos 9;
  maker_balance_manager_id = "0xa";
  taker_balance_manager_id = "0xt";
  onchain_timestamp = pos time;
}

-- Two fills of the last day.
abbrev fills : List OrderFill
fills = filled 100000000 3 ∷ filled 110000000 4 ∷ []

abbrev base_rows : List (String × ℤ)
base_rows = ("0x1", pos 8) ∷ ("0x1", pos 8) ∷ []

abbrev quote_rows : List (String × ℤ)
quote_rows = ("0x1", pos 9) ∷ ("0x9", pos 1) ∷ []

abbrev last_rows : List (String × ℤ)
last_rows = ("0x1", pos 4) ∷ []

abbrev reads : Reads
reads = record {
  volume_clock = λ b. pos 120000000;
  all_pools = λ b. ok (pool_row "0x1" ∷ []);
  named_pools = λ b. ok (pool_row "0x1" ∷ []);
  volumes = λ start end ids b. if b then ok base_rows else ok quote_rows;
  get_pools = ok (pool_row "0x1" ∷ []);
  clock = pos 120000000;
  last_prices = λ start end. ok last_rows;
}

abbrev request : Params
request = []

base_rows-IsVolumes : IsVolumes reads request (pool_row "0x1" ∷ []) true base_rows
base_rows-IsVolumes = record {
  opened = refl;
  opened_again = refl;
  free = ground arith;
  answered = refl;
}

quote_rows-IsVolumes : IsVolumes reads request (pool_row "0x1" ∷ []) false quote_rows
quote_rows-IsVolumes = record {
  opened = refl;
  opened_again = refl;
  free = ground arith;
  answered = refl;
}

last_rows-IsLastPrices :
    IsLastPrices fills (sub_i64 (pos 120000000) (pos day_ms)) (pos 120000000) last_rows
unfolding sub_i64
last_rows-IsLastPrices = record {
  picked = (
    (
      filled 110000000 4,
      inr (inl refl),
      refl,
      refl,
      refl,
      (inr (omega arith), (inr (omega arith), tt)),
    ),
    tt,
  );
  covered = (inr (pos 4, inl refl), (inr (pos 4, inl refl), tt));
  once = (tt, tt);
}

ticker_lem_example :
    (out : HashMap (HashMap TickerValue)) × (last : Option ℤ) × (ticker reads request ≡ ok out)
    × (get "SUI_USDC" out
        ≡ some (entry 9 6 (volume_of "0x1" base_rows) (volume_of "0x1" quote_rows) last))
    × IsLastPrice fills (sub_i64 (pos 120000000) (pos day_ms)) (pos 120000000) "0x1" last
ticker_lem_example =
    ticker_lem reads request fills (pool_row "0x1" ∷ []) base_rows quote_rows last_rows
      (pool_row "0x1") 9 6 base_rows-IsVolumes quote_rows-IsVolumes refl ((tt, tt), (tt, tt)) refl
      last_rows-IsLastPrices (inl refl) refl refl
      (omega arith, omega arith, omega arith, omega arith)

volumes_run : (volume_of "0x1" base_rows ≡ 16) × (volume_of "0x1" quote_rows ≡ 9)
unfolding as_u64
volumes_run = (refl, refl)

abbrev get_price : ℤ → ℤ → String → Result ℤ DeepBookError
get_price start end id = if ltb_ℤ start (pos 0) then ok (pos 3) else ok (pos 4)

price_change_24h_lem_example :
    get "SUI_USDC"
      (price_change_24h get_price (pos 120000000) (pool_metadata (pool_row "0x1" ∷ [])))
    ≡ some (percent (pos 3) (pos 4) (10 ^ (9 + 6 - 9)))
unfolding sub_i64
price_change_24h_lem_example =
    price_change_24h_lem get_price (pos 120000000) (pool_row "0x1" ∷ []) (pool_row "0x1") 9 6
      (tt, tt) (inl refl) refl refl (omega arith, omega arith, omega arith, omega arith)

-- A request for one pool of two: the other one's volume does not count.
abbrev two : List Pools
two = pool_row "0x1" ∷ record (pool_row "0x2") { pool_name = "DEEP_SUI" } ∷ []

abbrev reader : ℤ → ℤ → List String → Bool → Result (List (String × ℤ)) DeepBookError
reader start end ids in_base = ok (("0x2", pos 7) ∷ ("0x2", pos 5) ∷ [])

two-AreApart : AreApart two
two-AreApart = (
  ((λ e. ground (arith, eq_iff "0x1" "0x2"), tt), (tt, tt)),
  ((λ e. ground (arith, eq_iff "SUI_USDC" "DEEP_SUI"), tt), (tt, tt)),
)

historical_volume-sums_example :
    (out : HashMap ℕ) × (historical_volume reader (pos 120000000) two "DEEP_SUI,none" [] ≡ ok out)
    × All
        (λ (p : Pools).
          get p.pool_name out ≡ total (volumes_at p.pool_id (("0x2", pos 7) ∷ ("0x2", pos 5) ∷ [])))
        two
    × ((name : String) → All (λ (q : Pools). name ≢ q.pool_name) two → get name out ≡ none)
unfolding split
historical_volume-sums_example =
    historical_volume-sums reader (pos 120000000) two "DEEP_SUI,none" [] "0x2" []
      (("0x2", pos 7) ∷ ("0x2", pos 5) ∷ []) two-AreApart refl refl
