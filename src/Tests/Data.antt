-- ===== src/Tests/Data.antt =====
-- Rows that several tests use.
use rain_protocol.Prelude.{String}
use rain_protocol.Prelude.Int.{pos}
use rain_protocol.Schema.Row.Api.{Pools, OrderFillSummary}

abbrev pub pool_row : String → Pools
pool_row id = record {
  pool_id = id;
  pool_name = "SUI_USDC";
  base_asset_id = "0x2::sui::SUI";
  base_asset_decimals = pos 9;
  base_asset_symbol = "SUI";
  base_asset_name = "Sui";
  quote_asset_id = "0x3::usdc::USDC";
  quote_asset_decimals = pos 6;
  quote_asset_symbol = "USDC";
  quote_asset_name = "USDC";
  min_size = pos 1;
  lot_size = pos 1;
  tick_size = pos 1;
}

abbrev pub fill : OrderFillSummary
fill = record {
  pool_id = "0x1";
  maker_balance_manager_id = "0xa";
  taker_balance_manager_id = "0xb";
  quantity = pos 3;
}
