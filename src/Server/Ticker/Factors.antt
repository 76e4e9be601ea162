-- ===== src/Server/Ticker/Factors.antt =====
-- The factors that the ticker divides by, where the decimals are in their usual range.
use rain_protocol.Prelude.{ℕ, ◌+◌, ◌-◌, ◌%◌, ◌^◌, ◌≤◌, ◌≡◌, arith}
use rain_protocol.Prelude.Int.{pos, ◌+ℤ◌, ◌-ℤ◌}
use rain_protocol.Server.Decimals.{pow10_u64_exact}
use rain_protocol.Server.Ticker.{asset_factor, price_factor_i16, as_u32, as_u16, wrap_i16}

-- Decimals of both assets for which the factors are powers of ten that fit.
abbrev pub FitDecimals : ℕ → ℕ → Type 0
FitDecimals base quote = (base ≤ 19) × (quote ≤ 19) × (base ≤ 9 + quote) × (9 + quote ≤ base + 19)

pub asset_factor_exact : (n : ℕ) → n ≤ 19 → asset_factor (pos n) ≡ 10 ^ n
unfolding asset_factor as_u32
asset_factor_exact n h = let small : n % 2 ^ 32 ≡ n = omega arith in rw small (pow10_u64_exact n h)

exponent :
    (b q : ℕ) → FitDecimals b q → as_u32 (wrap_i16 (wrap_i16 (pos 9 -ℤ pos b) +ℤ pos q)) ≡ 9 + q - b
unfolding as_u32 wrap_i16 as_u16 ◌+ℤ◌ ◌-ℤ◌
exponent b q (hb, hq, low, high) = ground arith

pub price_factor_i16_exact :
    (b q : ℕ) → FitDecimals b q → price_factor_i16 (pos b) (pos q) ≡ 10 ^ (9 + q - b)
unfolding price_factor_i16
price_factor_i16_exact b q (hb, hq, low, high) =
    rw (exponent b q (hb, hq, low, high)) (pow10_u64_exact (9 + q - b) (omega arith))
