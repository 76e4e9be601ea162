-- ===== src/Server/Events/MarginFees.antt =====
-- deepbookv3/crates/server/src/server.rs: the endpoints for fees, caps and referrals.
use rain_protocol.Prelude.Int.{ℤ}
use rain_protocol.Server.Params.{Params, end_time, start_time_or_day, limit, get_or_default}
use rain_protocol.Server.Reader.{Table, RpcMetrics, Answer}
use rain_protocol.Server.Reader.MarginFees.{
  get_maintainer_fees_withdrawn, get_protocol_fees_withdrawn, get_supplier_cap_minted,
  get_supply_referral_minted, get_protocol_fees_increased, get_referral_fees_claimed,
  get_referral_fee_events,
}
use rain_protocol.Schema.Row.MarginPool.{
  MaintainerFeesWithdrawn, ProtocolFeesWithdrawn, SupplierCapMinted, SupplyReferralMinted,
  ProtocolFeesIncreasedEvent, ReferralFeesClaimedEvent,
}
use rain_protocol.Schema.Row.Trading.{ReferralFeeEvent}

unfoldable pub maintainer_fees_withdrawn :
    Table MaintainerFeesWithdrawn → ℤ → Params → RpcMetrics → Answer MaintainerFeesWithdrawn
unfolding get_maintainer_fees_withdrawn
maintainer_fees_withdrawn t now params m =
    let end = end_time now params in
    get_maintainer_fees_withdrawn t (start_time_or_day end params) end (limit params)
      (get_or_default "margin_pool_id" params) m

unfoldable pub protocol_fees_withdrawn :
    Table ProtocolFeesWithdrawn → ℤ → Params → RpcMetrics → Answer ProtocolFeesWithdrawn
unfolding get_protocol_fees_withdrawn
protocol_fees_withdrawn t now params m =
    let end = end_time now params in
    get_protocol_fees_withdrawn t (start_time_or_day end params) end (limit params)
      (get_or_default "margin_pool_id" params) m

unfoldable pub supplier_cap_minted :
    Table SupplierCapMinted → ℤ → Params → RpcMetrics → Answer SupplierCapMinted
unfolding get_supplier_cap_minted
supplier_cap_minted t now params m =
    let end = end_time now params in
    get_supplier_cap_minted t (start_time_or_day end params) end (limit params)
      (get_or_default "supplier_cap_id" params) m

unfoldable pub supply_referral_minted :
    Table SupplyReferralMinted → ℤ → Params → RpcMetrics → Answer SupplyReferralMinted
unfolding get_supply_referral_minted
supply_referral_minted t now params m =
    let end = end_time now params in
    get_supply_referral_minted t (start_time_or_day end params) end (limit params)
      (get_or_default "margin_pool_id" params) (get_or_default "owner" params) m

unfoldable pub protocol_fees_increased :
    Table ProtocolFeesIncreasedEvent → ℤ → Params → RpcMetrics → Answer ProtocolFeesIncreasedEvent
unfolding get_protocol_fees_increased
protocol_fees_increased t now params m =
    let end = end_time now params in
    get_protocol_fees_increased t (start_time_or_day end params) end (limit params)
      (get_or_default "margin_pool_id" params) m

unfoldable pub referral_fees_claimed :
    Table ReferralFeesClaimedEvent → ℤ → Params → RpcMetrics → Answer ReferralFeesClaimedEvent
unfolding get_referral_fees_claimed
referral_fees_claimed t now params m =
    let end = end_time now params in
    get_referral_fees_claimed t (start_time_or_day end params) end (limit params)
      (get_or_default "referral_id" params) (get_or_default "owner" params) m

unfoldable pub referral_fee_events :
    Table ReferralFeeEvent → ℤ → Params → RpcMetrics → Answer ReferralFeeEvent
unfolding get_referral_fee_events
referral_fee_events t now params m =
    let end = end_time now params in
    get_referral_fee_events t (start_time_or_day end params) end (limit params)
      (get_or_default "pool_id" params) (get_or_default "referral_id" params) m
