-- ===== src/Server/TradeId.antt =====
-- deepbookv3/crates/server/src/server.rs, `calculate_trade_id`.
use rain_protocol.Prelude.{ℕ, ◌+◌, ◌%◌, ◌^◌, ◌<◌, String, some, ◌≡◌, arith}
use rain_protocol.Prelude.Result.{Result, ok, ok_or, ◌>>=◌}
use rain_protocol.Prelude.Parse.{parse_u128}
use rain_protocol.Server.Error.{DeepBookError, bad_request}

-- `id & !(1 << 127)` of a `u128`: without its top bit.
unfoldable pub clear_top_bit : ℕ → ℕ
clear_top_bit id = id % 2 ^ 127

-- `maker_id + taker_id` wraps at 2^128.
unfoldable pub calculate_trade_id : String → String → Result ℕ DeepBookError
calculate_trade_id maker_id taker_id = do
  maker ← ok_or (bad_request "Invalid maker_id") (parse_u128 maker_id)
  taker ← ok_or (bad_request "Invalid taker_id") (parse_u128 taker_id)
  ok ((clear_top_bit maker + clear_top_bit taker) % 2 ^ 128)

-- The sum never overflows: with two valid ids the trade id is the plain sum of their low 127 bits,
-- whichever is the maker.
pub calculate_trade_id_exact :
    (maker_id taker_id : String) (m t : ℕ)
    → parse_u128 maker_id ≡ some m
    → parse_u128 taker_id ≡ some t
    → (calculate_trade_id maker_id taker_id ≡ ok (m % 2 ^ 127 + t % 2 ^ 127))
      × (calculate_trade_id taker_id maker_id ≡ calculate_trade_id maker_id taker_id)
      × (m % 2 ^ 127 + t % 2 ^ 127 < 2 ^ 128)
unfolding calculate_trade_id clear_top_bit
calculate_trade_id_exact maker_id taker_id m t hm ht =
    rw (hm, ht) (ground arith, ground arith, omega arith)
