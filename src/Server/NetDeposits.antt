-- ===== src/Server/NetDeposits.antt =====
-- deepbookv3/crates/server/src/reader.rs, `get_net_deposits_from_view`, and the materialized view that
-- it reads (the migration 2026-01-15-234908-0000_add_net_deposits_view): the SQL as functions on the
-- rows of `balances`, for one asset. Sums do not wrap in
-- SQL; the casts to `bigint`, which fail out of range, are left out.
pub mod Laws
pub mod Request
pub mod Answer
use rain_protocol.Prelude.{
  ℕ, String, Bool, true, false, ◌&&◌, List, [], ◌∷◌, Option, none, some, unwrap_or, str_eq,
  if◌then◌else◌,
}
use rain_protocol.Prelude.Int.{ℤ, pos, ◌+ℤ◌, ◌-ℤ◌, ◌/ℤ◌, scale, ltb_ℤ, leb_ℤ, eqb_ℤ}
use rain_protocol.Schema.Row.Trading.{Balances}

-- `(t / 3600000) * 3600000`.
unfoldable pub hour_bucket : ℤ → ℤ
hour_bucket t = scale 3600000 (t /ℤ 3600000)

-- `CASE WHEN deposit THEN amount ELSE -amount END`.
unfoldable pub signed_amount : Balances → ℤ
signed_amount b = if b.deposit then b.amount else pos 0 -ℤ b.amount

-- `SUM(f) ... WHERE p GROUP BY asset` at one asset: no row for an empty group.
abbrev pub plus_if : Bool → ℤ → Option ℤ → Option ℤ
plus_if true d total = some (d +ℤ unwrap_or (pos 0) total)
plus_if false d total = total

unfoldable pub sum_where : {A : Type 0} → (A → Bool) → (A → ℤ) → List A → Option ℤ
sum_where p f [] = none
sum_where p f (x ∷ xs) = plus_if (p x) (f x) (sum_where p f xs)

-- A row of the view `net_deposits_hourly`.
pub record HourlyRow : Type 0 where
  pub asset : String
  pub hour_bucket_ms : ℤ
  pub net_amount_delta : ℤ

abbrev pub same_group : Balances → HourlyRow → Bool
same_group b r =
    str_eq r.asset b.asset && eqb_ℤ r.hour_bucket_ms (hour_bucket b.checkpoint_timestamp_ms)

unfoldable pub add_to_view : Balances → List HourlyRow → List HourlyRow
unfolding hour_bucket signed_amount
add_to_view b [] =
    record {
      asset = b.asset;
      hour_bucket_ms = hour_bucket b.checkpoint_timestamp_ms;
      net_amount_delta = signed_amount b;
    }
    ∷ []
add_to_view b (r ∷ rows) =
    if same_group b r
    then record r { net_amount_delta = signed_amount b +ℤ r.net_amount_delta } ∷ rows
    else r ∷ add_to_view b rows

-- The view as a refresh leaves it.
unfoldable pub net_deposits_hourly : List Balances → List HourlyRow
unfolding add_to_view
net_deposits_hourly [] = []
net_deposits_hourly (b ∷ rows) = add_to_view b (net_deposits_hourly rows)

unfoldable pub hourly_totals : String → ℤ → List HourlyRow → Option ℤ
unfolding sum_where
hourly_totals asset hour_bucket_ms view =
    sum_where (λ (r : HourlyRow). str_eq r.asset asset && ltb_ℤ r.hour_bucket_ms hour_bucket_ms)
      (λ (r : HourlyRow). r.net_amount_delta) view

unfoldable pub partial_hour : String → ℤ → ℤ → List Balances → Option ℤ
unfolding sum_where signed_amount
partial_hour asset hour_bucket_ms timestamp_ms rows =
    sum_where
      (λ (b : Balances).
        str_eq b.asset asset
        && leb_ℤ hour_bucket_ms b.checkpoint_timestamp_ms
        && ltb_ℤ b.checkpoint_timestamp_ms timestamp_ms)
      signed_amount rows

-- The full outer join, with the sum of the coalesced amounts.
abbrev pub outer_join : Option ℤ → Option ℤ → Option ℤ
outer_join none none = none
outer_join (some h) none = some (h +ℤ pos 0)
outer_join none (some p) = some (pos 0 +ℤ p)
outer_join (some h) (some p) = some (h +ℤ p)

-- The net amount of one asset, from a view and the table.
unfoldable pub net_amount : List HourlyRow → List Balances → String → ℤ → Option ℤ
unfolding hour_bucket hourly_totals partial_hour
net_amount view rows asset timestamp_ms =
    let hour_bucket_ms = hour_bucket timestamp_ms in
    outer_join (hourly_totals asset hour_bucket_ms view)
      (partial_hour asset hour_bucket_ms timestamp_ms rows)
