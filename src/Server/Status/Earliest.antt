-- ===== src/Server/Status/Earliest.antt =====
-- The earliest checkpoint of the status (deepbookv3/crates/server/src/server.rs, `status`).
use rain_protocol.Prelude.{
  ℕ, List, [], ◌∷◌, All, All-weaken, ◌≡◌, arith, if◌then◌else◌, refl, ◌∙◌, ◌⊎◌, inl, inr, Among,
  Bool-cases,
}
use rain_protocol.Prelude.Int.{ℤ, pos, ◌≤ℤ◌, eqb_ℤ}
use rain_protocol.Server.Status.{Watermark, StatusQueryParams, Lag, i64_max, no_lag, track, status}
use rain_protocol.Server.Status.Laws.{next, track-min}

-- The minimum of the loop is that before it, or the checkpoint of a pipeline.
next-from :
    (latest : ℕ) (s : Lag) (w : Watermark)
    → ((next latest s w).min_checkpoint ≡ s.min_checkpoint)
      ⊎ ((next latest s w).min_checkpoint ≡ w.checkpoint_hi)
next-from latest s w = ground arith

track-from :
    (latest : ℕ) (s : Lag) (ws : List Watermark)
    → ((track latest s ws).min_checkpoint ≡ s.min_checkpoint)
      ⊎ ((w : Watermark) × Among w ws × ((track latest s ws).min_checkpoint ≡ w.checkpoint_hi))
unfolding track
track-from latest s [] = inl refl
track-from latest s (w ∷ rest) = elim (track-from latest (next latest s w) rest) [
  | inl same ↦ elim (next-from latest s w) [
    | inl before ↦ inl (same ∙ before)
    | inr this ↦ inr (w, inl refl, same ∙ this)
  ]
  | inr (v, among, same) ↦ inr (v, inr among, same)
]

-- What is reported for the minimum that the loop ends with.
abbrev reported : ℤ → ℤ
reported m = if eqb_ℤ m i64_max then pos 0 else m

or_zero_le : (m v : ℤ) → m ≤ℤ v → reported m ≤ℤ v
or_zero_le m v h = ground arith

reported-cases : (m : ℤ) → (reported m ≡ m) ⊎ ((reported m ≡ pos 0) × (i64_max ≤ℤ m))
reported-cases m = elim (Bool-cases (eqb_ℤ m i64_max)) [
  | inl e ↦ inr (rw e refl, ground arith)
  | inr e ↦ inl (rw e refl)
]

le_trans : (a b c : ℤ) → a ≤ℤ b → b ≤ℤ c → a ≤ℤ c
le_trans a b c h k = omega arith

-- The earliest checkpoint that the status reports is not ahead of any pipeline, and it is the
-- checkpoint of one of the pipelines; or it is 0, and no pipeline has a checkpoint below the greatest
-- `i64`, as when there are no pipelines.
pub status-earliest :
    (params : StatusQueryParams) (ws : List Watermark) (latest : ℕ) (now : ℤ)
    → let earliest = (status params ws latest now).earliest_checkpoint in
      All (λ (w : Watermark). earliest ≤ℤ w.checkpoint_hi) ws
      × (((w : Watermark) × Among w ws × (earliest ≡ w.checkpoint_hi))
          ⊎ ((earliest ≡ pos 0) × All (λ (w : Watermark). i64_max ≤ℤ w.checkpoint_hi) ws))
unfolding status
status-earliest params ws latest now =
    let m = (track latest no_lag ws).min_checkpoint in
    let (_, all) = track-min latest no_lag ws in
    let none_below = λ (big : i64_max ≤ℤ m).
      All-weaken (λ (w : Watermark). i64_max ≤ℤ w.checkpoint_hi) ws
        (λ w k. le_trans i64_max m w.checkpoint_hi big k) all in
    (
      All-weaken _ ws (λ w k. or_zero_le _ w.checkpoint_hi k) all,
      elim (reported-cases m) [
        | inr (zero_, big) ↦ inr (zero_, none_below big)
        | inl kept ↦ elim (track-from latest no_lag ws) [
          | inr (w, among, same) ↦ inl (w, among, kept ∙ same)
          | inl untouched ↦
              inr (rw (untouched, eqb_ℤ) refl, none_below (rw untouched (omega arith)))
        ]
      ],
    )
