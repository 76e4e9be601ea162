-- ===== src/Server/NetDeposits/Answer.antt =====
-- What the endpoint for net deposits answers.
use rain_protocol.Prelude.{
  ℕ, ◌*◌, ◌^◌, ◌<◌, ◌≡◌, refl, sym, ◌∙◌, ap, String, true, List, [], ◌∷◌, map, All, All-weaken,
  Among, Option, none, some, str_eq, eq_refl, inl, inr, Bool-cases, Option-cases, ◌⊎◌, arith,
}
use rain_protocol.Prelude.Int.{ℤ, pos, scale}
use rain_protocol.Prelude.Words.{mul_i64, mul_i64_id}
use rain_protocol.Prelude.Text.{split}
use rain_protocol.Prelude.Map.{
  HashMap, get, insert, collect_onto, collect, last_onto, get-collect_onto,
}
use rain_protocol.Prelude.Parse.{parse_i64}
use rain_protocol.Prelude.Result.{ok, err}
use rain_protocol.Schema.Row.Trading.{Balances}
use rain_protocol.Server.NetDeposits.{hour_bucket, net_amount, net_deposits_hourly}
use rain_protocol.Server.NetDeposits.Laws.{amount_before, IsNatural, net_amount-amount_before}
use rain_protocol.Server.NetDeposits.Request.{
  View, cleaned_asset, with_prefix, by_asset, get_net_deposits_from_view, get_net_deposits,
}
use rain_protocol.Server.Reader.{RpcMetrics, Answer}
use rain_protocol.Server.Reader.Latest.{counted-eq-ok}

-- The query answers from a fresh view of these balances: a row for each asset asked for that has a net
-- amount, and no other row.
pub record Answers (view : View) (rows : List Balances) : Type 0 where
  pub sound :
      (assets : List String) (ts : ℤ) (found : List (String × ℤ))
      → view.load (hour_bucket ts) assets ts ≡ ok found
      → All
          (λ (r : String × ℤ).
            Among r.0 assets × (net_amount (net_deposits_hourly rows) rows r.0 ts ≡ some r.1))
          found
  pub complete :
      (assets : List String) (ts : ℤ) (found : List (String × ℤ))
      → view.load (hour_bucket ts) assets ts ≡ ok found
      → (asset : String) (n : ℤ) → Among asset assets
      → net_amount (net_deposits_hourly rows) rows asset ts ≡ some n
      → Among (asset, n) found

insert-All :
    (P : String × ℤ → Type 0) (k : String) (n : ℤ) (m : HashMap ℤ)
    → P (k, n)
    → All P m
    → All P (insert k n m)
unfolding insert
insert-All P k n [] p all = (p, tt)
insert-All P k n ((j, v) ∷ m) p (q, all) = elim (Bool-cases (str_eq j k)) [
  | inl same ↦ rw same (p, all)
  | inr apart ↦ rw apart (q, insert-All P k n m p all)
]

abbrev shown_rows : List (String × ℤ) → List (String × ℤ)
shown_rows = map (λ (asset, n). (with_prefix asset, n))

collect_onto-All :
    (P : String × ℤ → Type 0) (m : HashMap ℤ) (rows : List (String × ℤ))
    → All P m
    → All (λ (r : String × ℤ). P (with_prefix r.0, r.1)) rows
    → All P (collect_onto m (shown_rows rows))
unfolding collect_onto
collect_onto-All P m [] start all = start
collect_onto-All P m ((a, v) ∷ rows) start (p, all) =
    collect_onto-All P (insert (with_prefix a) v m) rows (insert-All P (with_prefix a) v m p start)
      all

last_onto-some :
    (k : String) (v : ℤ) (rows : List (String × ℤ))
    → (v' : ℤ) × (last_onto (some v) k rows ≡ some v')
last_onto-some k v [] = (v, refl)
last_onto-some k v ((j, w) ∷ rows) = elim (Bool-cases (str_eq j k)) [
  | inl same ↦ rw (same, last_onto) (last_onto-some k w rows)
  | inr apart ↦ rw (apart, last_onto) (last_onto-some k v rows)
]

last_onto-present :
    (a : String) (n : ℤ) (rows : List (String × ℤ)) (o : Option ℤ)
    → Among (a, n) rows
    → (v : ℤ) × (last_onto o (with_prefix a) (shown_rows rows) ≡ some v)
last_onto-present a n ((b, w) ∷ rows) o (inl same) =
    let key : str_eq (with_prefix b) (with_prefix a) ≡ true =
      rw (ap (λ (r : String × ℤ). r.0) same) (eq_refl (with_prefix a)) in
    rw (key, last_onto) (last_onto-some (with_prefix a) w (shown_rows rows))
last_onto-present a n ((b, w) ∷ rows) o (inr later) = last_onto-present a n rows _ later
last_onto-present a n [] o h = elim h [ ]

by_asset-eq-ok :
    (answer : Answer (String × ℤ)) {out : HashMap ℤ} {m' : RpcMetrics}
    → by_asset answer ≡ (ok out, m')
    → (rows : List (String × ℤ)) × (answer ≡ (ok rows, m')) × (out ≡ collect (shown_rows rows))
by_asset-eq-ok (err e, m) h = ground arith
by_asset-eq-ok (ok rows, m) h = (rows, cc, cc)

scale-pos : (k n : ℕ) → scale k (pos n) ≡ pos (k * n)
unfolding scale
scale-pos k n = ground arith

milliseconds :
    (seconds : ℕ) → 1000 * seconds < 2 ^ 63 → mul_i64 1000 (pos seconds) ≡ pos (1000 * seconds)
milliseconds seconds small =
    mul_i64_id 1000 (pos seconds) (rw (scale-pos 1000 seconds) (ground arith))
    ∙ scale-pos 1000 seconds

-- The rows that an answer is made of.
answered_rows :
    (view : View) (asset_ids timestamp : String) (seconds : ℕ) (m m' : RpcMetrics)
    (answer : HashMap ℤ)
    → parse_i64 timestamp ≡ some (pos seconds)
    → 1000 * seconds < 2 ^ 63
    → get_net_deposits view asset_ids timestamp m ≡ (ok answer, m')
    → (found : List (String × ℤ)) × (view.load
          (hour_bucket (pos (1000 * seconds)))
          (map cleaned_asset (split b',' asset_ids))
          (pos (1000 * seconds))
        ≡ ok found)
      × (answer ≡ collect (shown_rows found))
unfolding get_net_deposits get_net_deposits_from_view
answered_rows view asset_ids timestamp seconds m m' answer parsed small h =
    let (found, counted_ok, made) =
      by_asset-eq-ok _ (rw (parsed, milliseconds seconds small) at h) in
    let (loaded, _) = counted-eq-ok _ view.connect _ m m' found counted_ok in (found, loaded, made)

-- An entry of an answer: the net deposits of an asset asked for, under its name with the prefix.
abbrev pub IsDeposits : List String → ℤ → List Balances → String × ℤ → Type 0
IsDeposits asked ts rows entry =
    (asset : String) × (entry.0 ≡ with_prefix asset)
    × Among asset asked
    × (amount_before asset ts rows ≡ some entry.1)

-- An asset without a balance change before a time, or with an entry in the answer.
abbrev pub IsAnswered : HashMap ℤ → ℤ → List Balances → String → Type 0
IsAnswered answer ts rows asset =
    (amount_before asset ts rows ≡ none) ⊎ ((n : ℤ) × (get (with_prefix asset) answer ≡ some n))

All-Among : {P : String → Type 0} (xs : List String) → ((x : String) → Among x xs → P x) → All P xs
All-Among [] f = tt
All-Among (x ∷ xs) f = (f x (inl refl), All-Among xs (λ y among. f y (inr among)))

-- Suppose the query answers from a fresh view of balances without negative timestamps, the timestamp
-- of the request is a number of seconds, and 1000 times it is below 2^63. Then every entry of the answer
-- is the net deposits, before that time, of an asset asked for, under its name with the prefix `0x`;
-- and each asset asked for that has a balance change before that time has an entry. An asset is asked
-- for by its name with the prefix or without it.
pub get_net_deposits_lem :
    (view : View) (rows : List Balances) (asset_ids timestamp : String) (seconds : ℕ)
    (m m' : RpcMetrics) (answer : HashMap ℤ)
    → Answers view rows
    → All IsNatural rows
    → parse_i64 timestamp ≡ some (pos seconds)
    → 1000 * seconds < 2 ^ 63
    → get_net_deposits view asset_ids timestamp m ≡ (ok answer, m')
    → let asked = map cleaned_asset (split b',' asset_ids) in
      All (IsDeposits asked (pos (1000 * seconds)) rows) answer
      × All (IsAnswered answer (pos (1000 * seconds)) rows) asked
unfolding collect get
get_net_deposits_lem view rows asset_ids timestamp seconds m m' answer answers natural parsed small
      h =
    let (found, loaded, made) =
      answered_rows view asset_ids timestamp seconds m m' answer parsed small h in
    let ts = 1000 * seconds in
    let asked = map cleaned_asset (split b',' asset_ids) in
    let same : (asset : String) → _ ≡ _ = λ asset. net_amount-amount_before asset ts rows natural in
    (
      rw made (
          collect_onto-All (IsDeposits asked (pos ts) rows) [] found tt (
            All-weaken _ found (λ r (among, amount). (r.0, refl, among, sym (same r.0) ∙ amount))
              (answers.sound asked (pos ts) found loaded))),
      All-Among asked λ asset among. elim (Option-cases (amount_before asset (pos ts) rows)) [
        | inl nothing ↦ inl nothing
        | inr (n, amount) ↦
            let (v, there) =
              last_onto-present asset n found none (
                answers.complete asked (pos ts) found loaded asset n among (same asset ∙ amount)) in
            inr (v, rw made (get-collect_onto (with_prefix asset) [] (shown_rows found) ∙ there))
      ],
    )
