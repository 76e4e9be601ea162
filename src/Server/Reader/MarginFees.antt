-- ===== src/Server/Reader/MarginFees.antt =====
-- deepbookv3/crates/server/src/reader.rs: queries of fees, caps and referrals.
use rain_protocol.Prelude.{String, [], ◌∷◌, some}
use rain_protocol.Prelude.Int.{ℤ}
use rain_protocol.Server.Reader.{between, like, to_pattern, Table, RpcMetrics, Answer, results}
use rain_protocol.Schema.Row.MarginPool.{
  MaintainerFeesWithdrawn, ProtocolFeesWithdrawn, SupplierCapMinted, SupplyReferralMinted,
  ProtocolFeesIncreasedEvent, ReferralFeesClaimedEvent,
}
use rain_protocol.Schema.Row.Trading.{ReferralFeeEvent}

unfoldable pub get_maintainer_fees_withdrawn :
    Table MaintainerFeesWithdrawn → ℤ → ℤ → ℤ → String → RpcMetrics → Answer MaintainerFeesWithdrawn
unfolding results to_pattern
get_maintainer_fees_withdrawn t start_time end_time limit margin_pool_id_filter m =
    results t
      (record {
        filters =
            between (λ r. r.checkpoint_timestamp_ms) start_time end_time
            ∷ like (λ r. r.margin_pool_id) (to_pattern margin_pool_id_filter)
            ∷ [];
        order_by_desc = λ r. r.checkpoint_timestamp_ms;
        limit = some limit;
      })
      m

unfoldable pub get_protocol_fees_withdrawn :
    Table ProtocolFeesWithdrawn → ℤ → ℤ → ℤ → String → RpcMetrics → Answer ProtocolFeesWithdrawn
unfolding results to_pattern
get_protocol_fees_withdrawn t start_time end_time limit margin_pool_id_filter m =
    results t
      (record {
        filters =
            between (λ r. r.checkpoint_timestamp_ms) start_time end_time
            ∷ like (λ r. r.margin_pool_id) (to_pattern margin_pool_id_filter)
            ∷ [];
        order_by_desc = λ r. r.checkpoint_timestamp_ms;
        limit = some limit;
      })
      m

unfoldable pub get_supplier_cap_minted :
    Table SupplierCapMinted → ℤ → ℤ → ℤ → String → RpcMetrics → Answer SupplierCapMinted
unfolding results to_pattern
get_supplier_cap_minted t start_time end_time limit supplier_cap_id_filter m =
    results t
      (record {
        filters =
            between (λ r. r.checkpoint_timestamp_ms) start_time end_time
            ∷ like (λ r. r.supplier_cap_id) (to_pattern supplier_cap_id_filter)
            ∷ [];
        order_by_desc = λ r. r.checkpoint_timestamp_ms;
        limit = some limit;
      })
      m

unfoldable pub get_supply_referral_minted :
    Table SupplyReferralMinted
    → ℤ
    → ℤ
    → ℤ
    → String
    → String
    → RpcMetrics
    → Answer SupplyReferralMinted
unfolding results to_pattern
get_supply_referral_minted t start_time end_time limit margin_pool_id_filter owner_filter m =
    results t
      (record {
        filters =
            between (λ r. r.checkpoint_timestamp_ms) start_time end_time
            ∷ like (λ r. r.margin_pool_id) (to_pattern margin_pool_id_filter)
            ∷ like (λ r. r.owner) (to_pattern owner_filter)
            ∷ [];
        order_by_desc = λ r. r.checkpoint_timestamp_ms;
        limit = some limit;
      })
      m

unfoldable pub get_protocol_fees_increased :
    Table ProtocolFeesIncreasedEvent
    → ℤ
    → ℤ
    → ℤ
    → String
    → RpcMetrics
    → Answer ProtocolFeesIncreasedEvent
unfolding results to_pattern
get_protocol_fees_increased t start_time end_time limit margin_pool_id_filter m =
    results t
      (record {
        filters =
            between (λ r. r.checkpoint_timestamp_ms) start_time end_time
            ∷ like (λ r. r.margin_pool_id) (to_pattern margin_pool_id_filter)
            ∷ [];
        order_by_desc = λ r. r.checkpoint_timestamp_ms;
        limit = some limit;
      })
      m

unfoldable pub get_referral_fees_claimed :
    Table ReferralFeesClaimedEvent
    → ℤ
    → ℤ
    → ℤ
    → String
    → String
    → RpcMetrics
    → Answer ReferralFeesClaimedEvent
unfolding results to_pattern
get_referral_fees_claimed t start_time end_time limit referral_id_filter owner_filter m =
    results t
      (record {
        filters =
            between (λ r. r.checkpoint_timestamp_ms) start_time end_time
            ∷ like (λ r. r.referral_id) (to_pattern referral_id_filter)
            ∷ like (λ r. r.owner) (to_pattern owner_filter)
            ∷ [];
        order_by_desc = λ r. r.checkpoint_timestamp_ms;
        limit = some limit;
      })
      m

unfoldable pub get_referral_fee_events :
    Table ReferralFeeEvent → ℤ → ℤ → ℤ → String → String → RpcMetrics → Answer ReferralFeeEvent
unfolding results to_pattern
get_referral_fee_events t start_time end_time limit pool_id_filter referral_id_filter m =
    results t
      (record {
        filters =
            between (λ r. r.checkpoint_timestamp_ms) start_time end_time
            ∷ like (λ r. r.pool_id) (to_pattern pool_id_filter)
            ∷ like (λ r. r.referral_id) (to_pattern referral_id_filter)
            ∷ [];
        order_by_desc = λ r. r.checkpoint_timestamp_ms;
        limit = some limit;
      })
      m
