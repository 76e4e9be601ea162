-- ===== src/Prelude/Words.antt =====
-- Machine words: a `u64` is a number below 2^64, an `i64` an integer. `as i64` reads the bits of a
-- `u64` as two's complement, and `wrap_i64` is what a release build keeps of an overflowing result.
use Prim.Native.Nat.{ℕ, ◌+◌, ◌-◌, ◌%◌, ◌^◌, ◌<◌, ◌≤◌}
use mathlib.Core.Path.{◌≡◌}
use native.Mathlib.Omega.{arith}
use rain_protocol.Prelude.Tests.{ltb, if◌then◌else◌}
use rain_protocol.Prelude.Int.{ℤ, pos, negsuc, pos_part, neg_part, ◌+ℤ◌, ◌-ℤ◌, scale}

-- `n as i64` of an `n : u64`.
unfoldable pub as_i64 : ℕ → ℤ
as_i64 n = if ltb n (2 ^ 63) then pos n else negsuc (2 ^ 64 - 1 - n)

-- `z as u64` of a `z : i64`: the bits.
unfoldable pub as_u64 : ℤ → ℕ
as_u64 (pos n) = n % 2 ^ 64
as_u64 (negsuc n) = 2 ^ 64 - 1 - n % 2 ^ 64

unfoldable pub wrap_i64 : ℤ → ℤ
unfolding as_i64 as_u64
wrap_i64 z = as_i64 (as_u64 z)

-- `n as i16` of an `n : u8`, which always fits.
unfoldable pub u8_as_i16 : ℕ → ℤ
u8_as_i16 n = pos n

unfoldable pub add_i64 : ℤ → ℤ → ℤ
unfolding wrap_i64 ◌+ℤ◌
add_i64 a b = wrap_i64 (a +ℤ b)

unfoldable pub sub_i64 : ℤ → ℤ → ℤ
unfolding wrap_i64 ◌-ℤ◌
sub_i64 a b = wrap_i64 (a -ℤ b)

unfoldable pub mul_i64 : ℕ → ℤ → ℤ
unfolding wrap_i64 scale
mul_i64 k a = wrap_i64 (scale k a)

-- `a - b` and `a + b` on `u64`, in a release build.
unfoldable pub sub_u64 : ℕ → ℕ → ℕ
sub_u64 a b = (a + 2 ^ 64 - b) % 2 ^ 64

unfoldable pub add_u64 : ℕ → ℕ → ℕ
add_u64 a b = (a + b) % 2 ^ 64

-- The integers that an `i64` holds.
abbrev pub IsI64 : ℤ → Type 0
IsI64 z = (pos_part z < 2 ^ 63) × (neg_part z ≤ 2 ^ 63)

pub wrap_i64_id : (z : ℤ) → IsI64 z → wrap_i64 z ≡ z
unfolding wrap_i64
wrap_i64_id (pos n) h = ground arith
wrap_i64_id (negsuc n) h = ground arith

pub as_i64_id : (n : ℕ) → n < 2 ^ 63 → as_i64 n ≡ pos n
unfolding as_i64
as_i64_id n h = ground arith

pub as_u64-as_i64 : (n : ℕ) → n < 2 ^ 64 → as_u64 (as_i64 n) ≡ n
unfolding as_i64 as_u64
as_u64-as_i64 n h = ground arith

pub add_i64_id : (a b : ℤ) → IsI64 (a +ℤ b) → add_i64 a b ≡ a +ℤ b
unfolding add_i64
add_i64_id a b h = wrap_i64_id (a +ℤ b) h

pub sub_i64_id : (a b : ℤ) → IsI64 (a -ℤ b) → sub_i64 a b ≡ a -ℤ b
unfolding sub_i64
sub_i64_id a b h = wrap_i64_id (a -ℤ b) h

pub mul_i64_id : (k : ℕ) (a : ℤ) → IsI64 (scale k a) → mul_i64 k a ≡ scale k a
unfolding mul_i64
mul_i64_id k a h = wrap_i64_id (scale k a) h

pub sub_u64_id : (a b : ℕ) → b ≤ a → a < 2 ^ 64 → sub_u64 a b ≡ a - b
unfolding sub_u64
sub_u64_id a b h k = omega arith

-- `as u8` of an `i16`.
unfoldable pub as_u8 : ℤ → ℕ
as_u8 (pos n) = n % 256
as_u8 (negsuc n) = 255 - n % 256
