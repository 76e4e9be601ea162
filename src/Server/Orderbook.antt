-- ===== src/Server/Orderbook.antt =====
-- deepbookv3/crates/server/src/server.rs, `orderbook`: its parameters, and the two sides of the book.
-- Prices and quantities are returned as fractions, whose division is left to the reader.
use rain_protocol.Prelude.{
  Option-cases, inl, inr, ◌<◌, ◌^◌, ℕ, ◌/◌, ◌≤◌, String, ◌&&◌, Option, none, some, leb, ◌==◌,
  if◌then◌else◌, ◌≡◌, arith,
}
use rain_protocol.Prelude.Result.{Result, ok, err, ◌>>=◌}
use rain_protocol.Prelude.Map.{get}
use rain_protocol.Prelude.Parse.{parse_u64, parse_u64_bound}
use rain_protocol.Server.Error.{DeepBookError, bad_request}
use rain_protocol.Server.Params.{Params}

-- `.get(name).map(|v| v.parse::<u64>()).transpose().map_err(...)`.
abbrev pub optional_u64 : String → Option String → Result (Option ℕ) DeepBookError
optional_u64 msg none = ok none
optional_u64 msg (some v) = elim (parse_u64 v) [
  | none ↦ err (bad_request msg)
  | some n ↦ ok (some n)
]

-- Zero stands for the entire book, 200 ticks.
abbrev pub or_entire : Option ℕ → Option ℕ
or_entire none = none
or_entire (some depth) = some (if depth == 0 then 200 else depth)

abbrev pub check_depth : Option ℕ → Result (Option ℕ) DeepBookError
check_depth none = ok none
check_depth (some depth) =
    if depth == 1
    then err
        (bad_request "Depth cannot be 1. Use a value greater than 1 or 0 for the entire orderbook")
    else ok (some depth)

abbrev pub check_level : Option ℕ → Result (Option ℕ) DeepBookError
check_level none = ok none
check_level (some level) =
    if leb 1 level && leb level 2 then ok (some level) else err (bad_request "Level must be 1 or 2")

-- The table of the `match (depth, level)`.
unfoldable pub ticks_from_mid : Option ℕ → Option ℕ → ℕ
ticks_from_mid (some depth) (some level) =
    if level == 1 then 1 else if level == 2 then depth / 2 else 100
ticks_from_mid (some depth) none = depth / 2
ticks_from_mid none (some level) = if level == 1 then 1 else 100
ticks_from_mid none none = 100

unfoldable pub orderbook_ticks : Params → Result ℕ DeepBookError
unfolding ticks_from_mid
orderbook_ticks params = do
  depth ← optional_u64 "Depth must be a non-negative integer" (get "depth" params)
  depth' ← check_depth (or_entire depth)
  level ← optional_u64 "Level must be an integer between 1 and 2" (get "level" params)
  level' ← check_level level
  ok (ticks_from_mid depth' level')

-- An accepted request asks for one tick at least on each side, and for less than 2^63; without a
-- depth it asks for at most 100.
pub orderbook_ticks_bounds :
    (params : Params) (n : ℕ)
    → orderbook_ticks params ≡ ok n
    → (1 ≤ n) × (n < 2 ^ 63) × (get "depth" params ≡ none → n ≤ 100)
unfolding orderbook_ticks
orderbook_ticks_bounds params n h = elim (Option-cases (get "depth" params)) [
  | inl e ↦ (ground arith, ground arith, λ _. ground arith)
  | inr (v, e) ↦ elim (Option-cases (parse_u64 v)) [
    | inl bad ↦ (ground arith, ground arith, λ missing. ground arith)
    | inr (depth, parsed) ↦
        let fits = parse_u64_bound v depth parsed in
        (ground arith, ground arith, λ missing. ground arith)
  ]
]
