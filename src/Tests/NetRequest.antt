-- ===== src/Tests/NetRequest.antt =====
-- A request for the net deposits of two assets, one of which has none.
use rain_protocol.Prelude.{
  ◌≡◌, ◌*◌, refl, ap, String, List, [], ◌∷◌, map, All, All-weaken, Among, Option, none, some, inl,
  inr, arith, Option-cases,
}
use rain_protocol.Prelude.Int.{ℤ, pos, scale, ◌/ℤ◌, ◌+ℤ◌, ◌-ℤ◌}
use rain_protocol.Prelude.Words.{mul_i64}
use rain_protocol.Prelude.Text.{split}
use rain_protocol.Prelude.Map.{HashMap}
use rain_protocol.Prelude.Result.{ok, ok-injective}
use rain_protocol.Prelude.Parse.{parse_i64}
use rain_protocol.Schema.Row.Trading.{Balances}
use rain_protocol.Server.Reader.{succeeded}
use rain_protocol.Server.NetDeposits.{net_amount, net_deposits_hourly}
use rain_protocol.Server.NetDeposits.Request.{View, cleaned_asset, get_net_deposits}
use rain_protocol.Server.NetDeposits.Answer.{Answers, IsDeposits, IsAnswered, get_net_deposits_lem}
use rain_protocol.Tests.NetDeposits.{rows, natural}
use rain_protocol.Tests.Reader.{none_yet}

abbrev row_if : String → Option ℤ → List (String × ℤ) → List (String × ℤ)
row_if asset none rest = rest
row_if asset (some n) rest = (asset, n) ∷ rest

abbrev amounts : List Balances → ℤ → List String → List (String × ℤ)
amounts balances ts [] = []
amounts balances ts (a ∷ assets) =
    row_if a (net_amount (net_deposits_hourly balances) balances a ts) (amounts balances ts assets)

abbrev IsAmount : List Balances → ℤ → List String → String × ℤ → Type 0
IsAmount balances ts assets r =
    Among r.0 assets × (net_amount (net_deposits_hourly balances) balances r.0 ts ≡ some r.1)

amounts-All :
    (balances : List Balances) (ts : ℤ) (assets : List String)
    → All (IsAmount balances ts assets) (amounts balances ts assets)
amounts-All balances ts [] = tt
amounts-All balances ts (a ∷ assets) =
    let rest =
      All-weaken (IsAmount balances ts (a ∷ assets)) (amounts balances ts assets)
        (λ r (among, same). (inr among, same)) (amounts-All balances ts assets) in
    elim (Option-cases (net_amount (net_deposits_hourly balances) balances a ts)) [
      | inl e ↦ rw (e, row_if) rest
      | inr (n, e) ↦ rw (e, row_if) ((inl refl, e), rest)
    ]

amounts-Among :
    (balances : List Balances) (ts : ℤ) (assets : List String) (asset : String) (n : ℤ)
    → Among asset assets
    → net_amount (net_deposits_hourly balances) balances asset ts ≡ some n
    → Among (asset, n) (amounts balances ts assets)
amounts-Among balances ts [] asset n h same = elim h [ ]
amounts-Among balances ts (a ∷ assets) asset n (inl e) same =
    rw (e, same, row_if) (inl (ap (λ (x : String). (x, n)) e))
amounts-Among balances ts (a ∷ assets) asset n (inr h) same =
    let later = amounts-Among balances ts assets asset n h same in
    elim (Option-cases (net_amount (net_deposits_hourly balances) balances a ts)) [
      | inl e ↦ rw (e, row_if) later
      | inr (k, e) ↦ rw (e, row_if) (inr later)
    ]

abbrev view : View
view = record { connect = ok tt; load = λ hour assets ts. ok (amounts rows ts assets) }

view-Answers : Answers view rows
view-Answers = record {
  sound = λ assets ts found h. rw (← ok-injective h) (amounts-All rows ts assets);
  complete = λ assets ts found h asset n among same.
      rw (← ok-injective h) (amounts-Among rows ts assets asset n among same);
}

abbrev answer : HashMap ℤ
answer = ("0xSUI", pos 42) ∷ []

run : get_net_deposits view "0xSUI,DEEP" "9000" none_yet ≡ (ok answer, succeeded none_yet)
unfolding get_net_deposits parse_i64 split net_amount net_deposits_hourly scale ◌/ℤ◌ mul_i64 ◌+ℤ◌
    ◌-ℤ◌
run = refl

seconds : parse_i64 "9000" ≡ some (pos 9000)
unfolding parse_i64
seconds = refl

get_net_deposits_lem_example :
    let asked = map cleaned_asset (split b',' "0xSUI,DEEP") in
    All (IsDeposits asked (pos (1000 * 9000)) rows) answer
    × All (IsAnswered answer (pos (1000 * 9000)) rows) asked
get_net_deposits_lem_example =
    get_net_deposits_lem view rows "0xSUI,DEEP" "9000" 9000 none_yet (succeeded none_yet) answer
      view-Answers natural seconds (omega arith) run
