-- ===== src/Server/Params.antt =====
-- deepbookv3/crates/server/src/server.rs, `ParameterUtil`: the common query parameters. The clock is
-- the argument `now`, in milliseconds.
use rain_protocol.Prelude.{
  ℕ, ◌*◌, String, Bool, true, false, if◌then◌else◌, Option, none, some, unwrap_or, str_eq,
}
use rain_protocol.Prelude.Int.{ℤ, pos}
use rain_protocol.Prelude.Words.{mul_i64, sub_i64}
use rain_protocol.Prelude.Map.{HashMap, get}
use rain_protocol.Prelude.Parse.{parse_i64}

abbrev pub Params : Type 0
Params = HashMap String

-- `self.get(name).and_then(|v| v.parse::<i64>().ok())`.
unfoldable pub get_i64 : String → Params → Option ℤ
get_i64 name params = elim (get name params) [ none ↦ none | some v ↦ parse_i64 v ]

abbrev pub seconds_to_ms : Option ℤ → Option ℤ
seconds_to_ms none = none
seconds_to_ms (some t) = some (mul_i64 1000 t)

unfoldable pub start_time : Params → Option ℤ
start_time params = seconds_to_ms (get_i64 "start_time" params)

unfoldable pub end_time : ℤ → Params → ℤ
end_time now params = unwrap_or now (seconds_to_ms (get_i64 "end_time" params))

unfoldable pub volume_in_base : Params → Bool
volume_in_base params = elim (get "volume_in_base" params) [
  | none ↦ false
  | some v ↦ str_eq v "true"
]

unfoldable pub limit : Params → ℤ
limit params = unwrap_or (pos 1) (get_i64 "limit" params)

abbrev pub day_ms : ℕ
day_ms = 24 * 60 * 60 * 1000

-- `params.start_time().unwrap_or_else(|| end_time - 24 * 60 * 60 * 1000)`.
unfoldable pub start_time_or_day : ℤ → Params → ℤ
start_time_or_day end params = unwrap_or (sub_i64 end (pos day_ms)) (start_time params)

-- `params.get(name).cloned().unwrap_or_default()`.
unfoldable pub get_or_default : String → Params → String
get_or_default name params = unwrap_or "" (get name params)

-- `v.parse::<bool>().ok()`.
unfoldable pub parse_bool : String → Option Bool
parse_bool v = if str_eq v "true" then some true else if str_eq v "false" then some false else none
