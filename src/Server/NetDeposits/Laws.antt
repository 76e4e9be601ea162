-- ===== src/Server/NetDeposits/Laws.antt =====
-- The net deposits at a time: full hours from the view, the rest from the table
-- (deepbookv3/crates/server/src/reader.rs).
use rain_protocol.Prelude.{
  ℕ, ◌*◌, ◌/◌, String, Bool, true, false, ◌&&◌, List, [], ◌∷◌, Option, none, some, unwrap_or,
  str_eq, eq_iff, if◌then◌else◌, ◌≡◌, refl, ap, ◌∙◌, arith, All, Bool-cases, &&-eq-true, inl, inr,
}
use rain_protocol.Prelude.Int.{
  ℤ, pos, ◌+ℤ◌, ◌/ℤ◌, scale, ltb_ℤ, leb_ℤ, eqb_ℤ, +ℤ_parts, eq_of_parts,
}
use rain_protocol.Schema.Row.Trading.{Balances}
use rain_protocol.Server.NetDeposits.{
  hour_bucket, signed_amount, plus_if, sum_where, HourlyRow, same_group, add_to_view,
  net_deposits_hourly, hourly_totals, partial_hour, outer_join, net_amount,
}

+ℤ_assoc : (a b c : ℤ) → a +ℤ b +ℤ c ≡ a +ℤ (b +ℤ c)
+ℤ_assoc a b c =
    eq_of_parts _ _
      (omega (arith, +ℤ_parts a b, +ℤ_parts (a +ℤ b) c, +ℤ_parts b c, +ℤ_parts a (b +ℤ c)))

+ℤ_swap : (a b c : ℤ) → a +ℤ (b +ℤ c) ≡ b +ℤ (a +ℤ c)
+ℤ_swap a b c =
    eq_of_parts _ _
      (omega (arith, +ℤ_parts a (b +ℤ c), +ℤ_parts b c, +ℤ_parts b (a +ℤ c), +ℤ_parts a c))

+ℤ_zero : (a : ℤ) → a +ℤ pos 0 ≡ a
+ℤ_zero a = eq_of_parts _ _ (omega (arith, +ℤ_parts a (pos 0)))

zero_+ℤ : (a : ℤ) → pos 0 +ℤ a ≡ a
zero_+ℤ a = eq_of_parts _ _ (omega (arith, +ℤ_parts (pos 0) a))

plus_if-swap :
    (c e : Bool) (a b : ℤ) (o : Option ℤ)
    → plus_if c a (plus_if e b o) ≡ plus_if e b (plus_if c a o)
plus_if-swap true true a b o = ap some (+ℤ_swap a b (unwrap_or (pos 0) o))
plus_if-swap true false a b o = refl
plus_if-swap false e a b o = refl

plus_if-merge :
    (c e : Bool) (a b : ℤ) (o : Option ℤ)
    → c ≡ e
    → plus_if c (a +ℤ b) o ≡ plus_if e a (plus_if c b o)
plus_if-merge true true a b o h = ap some (+ℤ_assoc a b (unwrap_or (pos 0) o))
plus_if-merge true false a b o h = cc
plus_if-merge false true a b o h = cc
plus_if-merge false false a b o h = refl

eqb_ℤ→eq : (a b : ℤ) → eqb_ℤ a b ≡ true → a ≡ b
eqb_ℤ→eq a b h = ground arith

-- A row added to one group of the view.
hourly_totals-add_to_view :
    (asset : String) (bound : ℤ) (b : Balances) (view : List HourlyRow)
    → hourly_totals asset bound (add_to_view b view)
      ≡ plus_if
          (str_eq b.asset asset && ltb_ℤ (hour_bucket b.checkpoint_timestamp_ms) bound)
          (signed_amount b)
          (hourly_totals asset bound view)
unfolding hourly_totals add_to_view sum_where
hourly_totals-add_to_view asset bound b [] = refl
hourly_totals-add_to_view asset bound b (r ∷ view) = elim (Bool-cases (same_group b r)) [
  | inl same ↦
      let (asset_same, bucket_same) = &&-eq-true _ _ same in
      let condition =
        ap (λ a. str_eq a asset && ltb_ℤ r.hour_bucket_ms bound)
          ((eq_iff r.asset b.asset).0 asset_same)
        ∙ ap (λ t. str_eq b.asset asset && ltb_ℤ t bound)
            (eqb_ℤ→eq r.hour_bucket_ms _ bucket_same) in
      rw same (plus_if-merge _ _ (signed_amount b) r.net_amount_delta _ condition)
  | inr other ↦ rw other (
      ap (plus_if (str_eq r.asset asset && ltb_ℤ r.hour_bucket_ms bound) r.net_amount_delta)
        (hourly_totals-add_to_view asset bound b view)
      ∙ plus_if-swap (str_eq r.asset asset && ltb_ℤ r.hour_bucket_ms bound)
          (str_eq b.asset asset && ltb_ℤ (hour_bucket b.checkpoint_timestamp_ms) bound)
          r.net_amount_delta (signed_amount b) (hourly_totals asset bound view))
]

-- The hours before that of the time, and the rest.
outer_join-plus_if :
    (h p : Bool) (d : ℤ) (hs ps : Option ℤ)
    → (h && p) ≡ false
    → outer_join (plus_if h d hs) (plus_if p d ps)
      ≡ plus_if (if h then true else p) d (outer_join hs ps)
outer_join-plus_if true true d hs ps e = cc
outer_join-plus_if true false d none none e = ap some (+ℤ_zero (d +ℤ pos 0))
outer_join-plus_if true false d (some x) none e = ap some (+ℤ_assoc d x (pos 0))
outer_join-plus_if true false d none (some y) e = ap some (+ℤ_assoc d (pos 0) y)
outer_join-plus_if true false d (some x) (some y) e = ap some (+ℤ_assoc d x y)
outer_join-plus_if false true d none none e = ap some (zero_+ℤ (d +ℤ pos 0))
outer_join-plus_if false true d (some x) none e = ap some (+ℤ_swap x d (pos 0))
outer_join-plus_if false true d none (some y) e = ap some (+ℤ_swap (pos 0) d y)
outer_join-plus_if false true d (some x) (some y) e = ap some (+ℤ_swap x d y)
outer_join-plus_if false false d hs ps e = refl

hour_bucket_pos : (n : ℕ) → hour_bucket (pos n) ≡ pos (n / 3600000 * 3600000)
unfolding hour_bucket ◌/ℤ◌ scale
hour_bucket_pos n = ground arith

-- A row of the full hours is none of the rest, and a row is before the time if it is one of the two.
parts_apart :
    (s : Bool) (n ts : ℕ)
    → let h = s && ltb_ℤ (pos (n / 3600000 * 3600000)) (pos (ts / 3600000 * 3600000)) in
      let p = s && leb_ℤ (pos (ts / 3600000 * 3600000)) (pos n) && ltb_ℤ (pos n) (pos ts) in
      ((h && p) ≡ false) × ((if h then true else p) ≡ (s && ltb_ℤ (pos n) (pos ts)))
parts_apart true n ts = ground arith
parts_apart false n ts = (refl, refl)

parts_apart_at :
    (s : Bool) (t : ℤ) (n ts : ℕ)
    → t ≡ pos n
    → let h = s && ltb_ℤ (hour_bucket t) (hour_bucket (pos ts)) in
      let p = s && leb_ℤ (hour_bucket (pos ts)) t && ltb_ℤ t (pos ts) in
      ((h && p) ≡ false) × ((if h then true else p) ≡ (s && ltb_ℤ t (pos ts)))
parts_apart_at s t n ts at = rw (at, hour_bucket_pos n, hour_bucket_pos ts) (parts_apart s n ts)

-- The deposits minus the withdrawals of one asset before a time, straight from the table.
unfoldable pub amount_before : String → ℤ → List Balances → Option ℤ
amount_before asset timestamp_ms rows =
    sum_where
      (λ (b : Balances). str_eq b.asset asset && ltb_ℤ b.checkpoint_timestamp_ms timestamp_ms)
      signed_amount rows

-- A timestamp that is not negative.
abbrev pub IsNatural : Balances → Type 0
IsNatural b = (n : ℕ) × (b.checkpoint_timestamp_ms ≡ pos n)

-- If the view is fresh, and no timestamp is negative, the net amount of an asset at a time is the sum
-- of its deposits minus its withdrawals before that time, and there is none if it has no such row: no
-- row of the hour that the time lies in is counted twice or missed.
pub net_amount-amount_before :
    (asset : String) (ts : ℕ) (rows : List Balances)
    → All IsNatural rows
    → net_amount (net_deposits_hourly rows) rows asset (pos ts) ≡ amount_before asset (pos ts) rows
unfolding net_amount net_deposits_hourly partial_hour amount_before sum_where hourly_totals
net_amount-amount_before asset ts [] natural = refl
net_amount-amount_before asset ts (b ∷ rows) ((n, at), natural) =
    let t = b.checkpoint_timestamp_ms in
    let s = str_eq b.asset asset in
    let (apart, either) = parts_apart_at s t n ts at in
    ap (λ o. outer_join o (partial_hour asset (hour_bucket (pos ts)) (pos ts) (b ∷ rows)))
      (hourly_totals-add_to_view asset (hour_bucket (pos ts)) b (net_deposits_hourly rows))
    ∙ outer_join-plus_if (s && ltb_ℤ (hour_bucket t) (hour_bucket (pos ts)))
        (s && leb_ℤ (hour_bucket (pos ts)) t && ltb_ℤ t (pos ts)) (signed_amount b)
        (hourly_totals asset (hour_bucket (pos ts)) (net_deposits_hourly rows))
        (partial_hour asset (hour_bucket (pos ts)) (pos ts) rows) apart
    ∙ ap
        (λ c.
          plus_if c (signed_amount b) (net_amount (net_deposits_hourly rows) rows asset (pos ts)))
        either
    ∙ ap (plus_if (s && ltb_ℤ t (pos ts)) (signed_amount b))
        (net_amount-amount_before asset ts rows natural)
