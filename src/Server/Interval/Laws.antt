-- ===== src/Server/Interval/Laws.antt =====
-- The loop over intervals: when it ends, when it does not, and what it answers.
use rain_protocol.Prelude.{
  ℕ, zero, suc, ◌+◌, ◌<◌, List, true, none, some, ◌≡◌, refl, arith, inl, inr, Bool-cases,
}
use rain_protocol.Prelude.Int.{ℤ, pos, negsuc, pos_part, neg_part, ◌+ℤ◌, ◌≤ℤ◌, leb_ℤ}
use rain_protocol.Prelude.Words.{add_i64, IsI64, add_i64_id, wrap_i64, as_i64, as_u64}
use rain_protocol.Prelude.Map.{HashMap}
use rain_protocol.Prelude.Result.{Result, ok, err, Result-cases}
use rain_protocol.Schema.Row.Api.{OrderFillSummary}
use rain_protocol.Server.Error.{DeepBookError}
use rain_protocol.Server.Interval.{Volumes, loop}

leb_ℤ→le : (a b : ℤ) → leb_ℤ a b ≡ true → a ≤ℤ b
leb_ℤ→le a b h = ground arith

le→leb_ℤ : (a b : ℤ) → a ≤ℤ b → leb_ℤ a b ≡ true
le→leb_ℤ a b h = ground arith

stays : (start : ℤ) → IsI64 start → add_i64 start (pos 0) ≡ start
unfolding add_i64 wrap_i64 ◌+ℤ◌ as_i64 as_u64
stays (pos n) fits = ground arith
stays (negsuc n) fits = ground arith

-- One step stays in range, and comes nearer to the end.
step_fits :
    (k : ℕ) (end current : ℤ) (fuel : ℕ)
    → 0 < k
    → IsI64 (end +ℤ pos k)
    → IsI64 (current +ℤ pos k)
    → pos_part end + neg_part current < suc fuel + (pos_part current + neg_part end)
    → current +ℤ pos k ≤ℤ end
    → IsI64 (current +ℤ pos k +ℤ pos k)
      × (pos_part end + neg_part (current +ℤ pos k)
          < fuel + (pos_part (current +ℤ pos k) + neg_part end))
      × (0 < fuel)
unfolding ◌+ℤ◌
step_fits k (pos e) (pos c) fuel k_pos fits low near before = ground arith
step_fits k (pos e) (negsuc c) fuel k_pos fits low near before = ground arith
step_fits k (negsuc e) (pos c) fuel k_pos fits low near before = ground arith
step_fits k (negsuc e) (negsuc c) fuel k_pos fits low near before = ground arith

module _ (query : ℕ → Result (List OrderFillSummary) DeepBookError)
    (summarise : List OrderFillSummary → Volumes) where
  -- With an interval of zero milliseconds the loop is still running with any fuel, if every query
  -- succeeds, the start is an `i64`, and the start is not behind the end.
  pub loop_diverges :
      (answers : ℕ → List OrderFillSummary)
      → ((n : ℕ) → query n ≡ ok (answers n))
      → (start end : ℤ) → IsI64 start
      → start ≤ℤ end
      → (fuel n : ℕ) (metrics : HashMap Volumes)
      → loop query summarise (pos 0) end fuel n start metrics ≡ none
  unfolding loop
  loop_diverges answers succeeds start end fits before zero n metrics = refl
  loop_diverges answers succeeds start end fits before (suc fuel) n metrics =
      rw (stays start fits, le→leb_ℤ start end before, succeeds n, loop)
        (rw (stays start fits)
          (loop_diverges answers succeeds start end fits before fuel (n + 1) _))

  -- The loop over intervals of k > 0 milliseconds ends, whatever the queries answer: if neither the
  -- start plus k nor the end plus k overflows an `i64`, it is over with any fuel that exceeds the
  -- distance from start to end, and is positive.
  pub loop_terminates :
      (k : ℕ) (end : ℤ)
      → 0 < k
      → IsI64 (end +ℤ pos k)
      → (fuel : ℕ) (current : ℤ) (n : ℕ) (metrics : HashMap Volumes) → IsI64 (current +ℤ pos k)
      → pos_part end + neg_part current < fuel + (pos_part current + neg_part end)
      → 0 < fuel
      → (r : Result (HashMap Volumes) DeepBookError) × (loop query summarise
            (pos k)
            end
            fuel
            n
            current
            metrics
          ≡ some r)
  unfolding loop
  loop_terminates k end k_pos fits zero current n metrics low near some_fuel = absurd (omega arith)
  loop_terminates k end k_pos fits (suc fuel) current n metrics low near some_fuel =
      let next : add_i64 current (pos k) ≡ current +ℤ pos k = add_i64_id current (pos k) low in
      elim (Bool-cases (leb_ℤ (add_i64 current (pos k)) end)) [
        | inr done ↦ rw (done, loop) (ok metrics, refl)
        | inl more ↦ elim (Result-cases (query n)) [
          | inl (results, e) ↦
              let before : leb_ℤ (current +ℤ pos k) end ≡ true = rw (← next) more in
              let (fits', near', some') =
                step_fits k end current fuel k_pos fits low near (leb_ℤ→le _ end before) in
              rw (more, e, loop)
                (rw next (
                  loop_terminates k end k_pos fits fuel (current +ℤ pos k) (n + 1) _ fits' near'
                    some'))
          | inr (e, failed) ↦ rw (more, failed, loop) (err e, refl)
        ]
      ]
