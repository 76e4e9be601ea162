-- ===== src/Prelude/Parse.antt =====
-- `str::parse` at the integer types: an optional sign, one digit or more, and the type's range.
use Prim.Native.Nat.{ℕ, ◌+◌, ◌-◌, ◌*◌, ◌^◌, ◌<◌}
use Prim.Native.Char.{code}
use Prim.Native.String.{String, [], ◌∷◌}
use mathlib.Core.Path.{◌≡◌}
use mathlib.Core.Bool.{◌&&◌}
use mathlib.Core.Option.{Option, none, some}
use native.Mathlib.Omega.{arith}
use rain_protocol.Prelude.Tests.{ltb, leb, ◌==◌, if◌then◌else◌}
use rain_protocol.Prelude.Int.{ℤ, pos, sub_ℕ}

digits_onto : ℕ → String → Option ℕ
digits_onto n [] = some n
digits_onto n (c ∷ s) =
    if leb b'0' (code c) && leb (code c) b'9' then digits_onto (n * 10 + (code c - 48)) s else none

-- One digit or more.
digits : String → Option ℕ
digits [] = none
digits (c ∷ s) = digits_onto 0 (c ∷ s)

abbrev below : ℕ → Option ℕ → Option ℕ
below bound none = none
below bound (some n) = if ltb n bound then some n else none

abbrev unsigned : ℕ → String → Option ℕ
unsigned bound [] = none
unsigned bound (c ∷ s) = below bound (if code c == b'+' then digits s else digits (c ∷ s))

unfoldable pub parse_u64 : String → Option ℕ
unfolding digits digits_onto
parse_u64 s = unsigned (2 ^ 64) s

unfoldable pub parse_u128 : String → Option ℕ
unfolding digits digits_onto
parse_u128 s = unsigned (2 ^ 128) s

abbrev signed : Option ℕ → Option ℕ → Option ℤ
signed none none = none
signed none (some n) = some (sub_ℕ 0 n)
signed (some n) other = some (pos n)

unfoldable pub parse_i64 : String → Option ℤ
unfolding digits digits_onto
parse_i64 [] = none
parse_i64 (c ∷ s) =
    if code c == b'-'
    then signed none (below (2 ^ 63 + 1) (digits s))
    else signed (unsigned (2 ^ 63) (c ∷ s)) none

pub parse_u64_bound : (s : String) (n : ℕ) → parse_u64 s ≡ some n → n < 2 ^ 64
unfolding parse_u64
parse_u64_bound [] n h = cc
parse_u64_bound (c ∷ s) n h = ground arith

pub parse_u128_bound : (s : String) (n : ℕ) → parse_u128 s ≡ some n → n < 2 ^ 128
unfolding parse_u128
parse_u128_bound [] n h = cc
parse_u128_bound (c ∷ s) n h = ground arith
