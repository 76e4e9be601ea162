-- ===== src/Server/Decimals.antt =====
-- deepbookv3/crates/server/src/server.rs: the factors by which `order_updates`, `orders`, `trades` and
-- `orderbook` scale on-chain integers. Decimals are cast to `u8`, whose arithmetic wraps, and so does
-- `10u64.pow`.
use native.Mathlib.Nat.{pow-suc}
use rain_protocol.Prelude.{
  ℕ, zero, suc, ◌+◌, ◌-◌, ◌*◌, ◌%◌, ◌^◌, ◌≤◌, ◌<◌, ◌≡◌, arith, Bool-cases, inl, inr, ltb,
  if◌then◌else◌,
}

-- `10u64.pow(e)`.
unfoldable pub pow10_u64 : ℕ → ℕ
pow10_u64 e = 10 ^ e % 2 ^ 64

-- `9 - base_decimals + quote_decimals` on `u8`.
unfoldable pub price_exponent : ℕ → ℕ → ℕ
price_exponent base_decimals quote_decimals =
    ((9 + 256 - base_decimals) % 256 + quote_decimals) % 256

unfoldable pub base_factor : ℕ → ℕ
unfolding pow10_u64
base_factor base_decimals = pow10_u64 base_decimals

unfoldable pub price_factor : ℕ → ℕ → ℕ
unfolding pow10_u64 price_exponent
price_factor base_decimals quote_decimals = pow10_u64 (price_exponent base_decimals quote_decimals)

pow10_mono : (k n m : ℕ) → k + n ≡ m → 10 ^ n ≤ 10 ^ m
pow10_mono zero n m e = let same : n ≡ m = omega arith in rw same (omega arith)
pow10_mono (suc k) n zero e = absurd (omega arith)
pow10_mono (suc k) n (suc m) e = rw (pow-suc 10 m) (omega (arith, pow10_mono k n m (omega arith)))

-- From 64 on every power of ten is a multiple of 2^64.
pow10-multiple : (k e : ℕ) → k + 64 ≡ e → (q : ℕ) × (10 ^ e ≡ q * 2 ^ 64)
pow10-multiple zero e h = let same : 64 ≡ e = omega arith in (5 ^ 64, rw (← same))
pow10-multiple (suc k) zero h = absurd (omega arith)
pow10-multiple (suc k) (suc e) h =
    let (q, small) = pow10-multiple k e (omega arith) in
    (q * 10, rw (pow-suc 10 e, small) (omega arith))

pub pow10_u64_exact : (e : ℕ) → e ≤ 19 → pow10_u64 e ≡ 10 ^ e
unfolding pow10_u64
pow10_u64_exact e h = omega (arith, pow10_mono (19 - e) e 19 (omega arith))

pow10_u64_zero : (e : ℕ) → 64 ≤ e → pow10_u64 e ≡ 0
unfolding pow10_u64
pow10_u64_zero e h =
    let (q, multiple) = pow10-multiple (e - 64) e (omega arith) in rw multiple (omega arith)

price_factor_exact :
    (b q : ℕ) → b < 256 → q < 256 → b ≤ 9 + q → 9 + q ≤ b + 19 → price_factor b q ≡ 10 ^ (9 + q - b)
unfolding price_factor
price_factor_exact b q hb hq fits small =
    let exponent : price_exponent b q ≡ 9 + q - b = unfold price_exponent in omega arith in
    rw exponent (pow10_u64_exact _ (omega arith))

price_factor_zero : (b q : ℕ) → b < 128 → q < 128 → 9 + q < b → price_factor b q ≡ 0
unfolding price_factor
price_factor_zero b q hb hq negative =
    pow10_u64_zero (price_exponent b q) (unfold price_exponent in omega arith)

-- For decimals below 128, of which those of the quote asset are at most 10 more than those of the base
-- asset, the price factor is ten to the power 9 - base + quote where this exponent is not negative,
-- and zero where it is.
pub price_factor_lem :
    (base_decimals quote_decimals : ℕ)
    → base_decimals < 128
    → quote_decimals < 128
    → quote_decimals ≤ base_decimals + 10
    → price_factor base_decimals quote_decimals ≡ (
        if ltb (9 + quote_decimals) base_decimals
        then 0
        else 10 ^ (9 + quote_decimals - base_decimals))
price_factor_lem b q hb hq near = elim (Bool-cases (ltb (9 + q) b)) [
  | inl h ↦ rw h (price_factor_zero b q hb hq (ground arith))
  | inr h ↦ rw h (price_factor_exact b q (omega arith) (omega arith) (ground arith) (omega arith))
]
