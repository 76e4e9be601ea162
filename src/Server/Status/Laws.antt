-- ===== src/Server/Status/Laws.antt =====
-- What the status of the indexer says (deepbookv3/crates/server/src/server.rs, `status`).
use rain_protocol.Prelude.{
  ℕ, true, List, [], ◌∷◌, map, All, All-weaken, ◌≡◌, arith, &&-eq-true, ◌↔◌, if◌then◌else◌,
}
use rain_protocol.Prelude.Int.{ℤ, pos, ◌≤ℤ◌, ◌<ℤ◌, ltb_ℤ, ltb_ℤ→lt, lt→ltb_ℤ}
use rain_protocol.Server.Status.{
  Watermark, StatusQueryParams, PipelineStatus, Lag, no_lag, lag_of, pipeline_status, track,
  track_earliest, track_max_lag, max_from, max_or_zero, status,
}

module _ (m x y : ℤ) where
  -- The larger of two, as both loops choose it.
  abbrev larger : ℤ
  larger = if ltb_ℤ x m then m else x

  larger-left : larger ≤ℤ y → m ≤ℤ y
  larger-left h = ground arith

  larger-right : larger ≤ℤ y → x ≤ℤ y
  larger-right h = ground arith

  larger_lt : m <ℤ y → x <ℤ y → larger <ℤ y
  larger_lt h k = ground arith

max_from-bounds : (m : ℤ) (xs : List ℤ) → (m ≤ℤ max_from m xs) × All (λ x. x ≤ℤ max_from m xs) xs
max_from-bounds m [] = (omega arith, tt)
max_from-bounds m (x ∷ xs) =
    let (from_here, others) = max_from-bounds (larger m x x) xs in
    (larger-left m x _ from_here, (larger-right m x _ from_here, others))

max_from_lt : (m y : ℤ) (xs : List ℤ) → m <ℤ y → All (λ x. x <ℤ y) xs → max_from m xs <ℤ y
max_from_lt m y [] h below = h
max_from_lt m y (x ∷ xs) h (k, below) = max_from_lt (larger m x x) y xs (larger_lt m x y h k) below

module _ (latest : ℕ) where
  abbrev pub next : Lag → Watermark → Lag
  next s w = track_max_lag w (lag_of latest w) (track_earliest w s)

  next-max :
      (s : Lag) (w : Watermark) (y : ℤ)
      → (next s w).max_checkpoint_lag ≤ℤ y
      → (s.max_checkpoint_lag ≤ℤ y) × (lag_of latest w ≤ℤ y)
  next-max s w y h = ground arith

  next_lt :
      (s : Lag) (w : Watermark) (y : ℤ)
      → s.max_checkpoint_lag <ℤ y
      → lag_of latest w <ℤ y
      → (next s w).max_checkpoint_lag <ℤ y
  next_lt s w y h k = ground arith

  next-min :
      (s : Lag) (w : Watermark) (y : ℤ)
      → y ≤ℤ (next s w).min_checkpoint
      → (y ≤ℤ s.min_checkpoint) × (y ≤ℤ w.checkpoint_hi)
  next-min s w y h = ground arith

  track-max :
      (s : Lag) (ws : List Watermark)
      → (s.max_checkpoint_lag ≤ℤ (track latest s ws).max_checkpoint_lag)
        × All (λ w. lag_of latest w ≤ℤ (track latest s ws).max_checkpoint_lag) ws
  unfolding track
  track-max s [] = (omega arith, tt)
  track-max s (w ∷ rest) =
      let (from_here, others) = track-max (next s w) rest in
      let (before, this) = next-max s w _ from_here in (before, (this, others))

  track_lt :
      (s : Lag) (y : ℤ) (ws : List Watermark)
      → s.max_checkpoint_lag <ℤ y
      → All (λ w. lag_of latest w <ℤ y) ws
      → (track latest s ws).max_checkpoint_lag <ℤ y
  unfolding track
  track_lt s y [] h below = h
  track_lt s y (w ∷ rest) h (this, below) = track_lt (next s w) y rest (next_lt s w y h this) below

  pub track-min :
      (s : Lag) (ws : List Watermark)
      → ((track latest s ws).min_checkpoint ≤ℤ s.min_checkpoint)
        × All (λ (w : Watermark). (track latest s ws).min_checkpoint ≤ℤ w.checkpoint_hi) ws
  unfolding track
  track-min s [] = (omega arith, tt)
  track-min s (w ∷ rest) =
      let (from_here, others) = track-min (next s w) rest in
      let (before, this) = next-min s w _ from_here in (before, (this, others))

All-map :
    {A B : Type 0} (P : B → Type 0) (f : A → B) (xs : List A)
    → All P (map f xs)
    → All (λ x. P (f x)) xs
All-map P f [] p = tt
All-map P f (x ∷ xs) (px, p) = (px, All-map P f xs p)

map-All :
    {A B : Type 0} (P : B → Type 0) (f : A → B) (xs : List A)
    → All (λ x. P (f x)) xs
    → All P (map f xs)
map-All P f [] p = tt
map-All P f (x ∷ xs) (px, p) = (px, map-All P f xs p)

All-both :
    {A : Type 0} (P Q : A → Type 0) (xs : List A) → All P xs → All Q xs → All (λ x. P x × Q x) xs
All-both P Q [] p q = tt
All-both P Q (x ∷ xs) (px, p) (qx, q) = ((px, qx), All-both P Q xs p q)

le_lt : (a b c : ℤ) → a ≤ℤ b → b <ℤ c → a <ℤ c
le_lt a b c h k = omega arith

-- A pipeline within both limits.
abbrev pub InLimits : StatusQueryParams → ℕ → ℤ → Watermark → Type 0
InLimits params latest now w =
    let p = pipeline_status latest now w in
    (p.checkpoint_lag <ℤ params.max_checkpoint_lag)
    × (p.time_lag_seconds <ℤ params.max_time_lag_seconds)

module _ (params : StatusQueryParams) (w : Watermark) (ws : List Watermark) (latest : ℕ)
    (now : ℤ) where
  abbrev time_lags : List ℤ
  time_lags = map (λ (p : PipelineStatus). p.time_lag_seconds) (map (pipeline_status latest now) ws)

  healthy_limits :
      (status params (w ∷ ws) latest now).is_healthy ≡ true
      → (pos 0 <ℤ params.max_checkpoint_lag) × All (InLimits params latest now) (w ∷ ws)
  unfolding status max_or_zero pipeline_status
  healthy_limits h =
      let (low_lag, low_time) = &&-eq-true _ _ h in
      let lag = ltb_ℤ→lt _ params.max_checkpoint_lag low_lag in
      let time = ltb_ℤ→lt _ params.max_time_lag_seconds low_time in
      let (positive, lags) = track-max latest no_lag (w ∷ ws) in
      let (first, times) =
        max_from-bounds (pipeline_status latest now w).time_lag_seconds time_lags in
      let times' =
        All-map _ (pipeline_status latest now) ws
          (All-map _ _ (map (pipeline_status latest now) ws) times) in
      (
        le_lt (pos 0) _ _ positive lag,
        All-both _ _ (w ∷ ws)
            (All-weaken _ (w ∷ ws) (λ v k. le_lt (lag_of latest v) _ _ k lag) lags)
            (All-weaken _ (w ∷ ws)
              (λ v k. le_lt (pipeline_status latest now v).time_lag_seconds _ _ k time)
              (first, times')),
      )

  limits_healthy :
      (pos 0 <ℤ params.max_checkpoint_lag) × All (InLimits params latest now) (w ∷ ws)
      → (status params (w ∷ ws) latest now).is_healthy ≡ true
  unfolding status max_or_zero pipeline_status
  limits_healthy (positive, ((lag, time), within)) =
      let lags =
        All-weaken (λ v. lag_of latest v <ℤ params.max_checkpoint_lag) ws (λ v k. k.0) within in
      let times =
        All-weaken
          (λ v. (pipeline_status latest now v).time_lag_seconds <ℤ params.max_time_lag_seconds) ws
          (λ v k. k.1) within in
      rw (
        lt→ltb_ℤ _ _
            (track_lt latest no_lag params.max_checkpoint_lag (w ∷ ws) positive (lag, lags)),
        lt→ltb_ℤ _ _ (
            max_from_lt _ params.max_time_lag_seconds time_lags time (
              map-All _ _ (map (pipeline_status latest now) ws)
                (map-All _ (pipeline_status latest now) ws times))),
      )

  -- With one pipeline or more, the status is healthy exactly if the limit on the checkpoint lag is
  -- positive and the checkpoint lag and the time lag of every pipeline are below their limits.
  pub status-is_healthy :
      ((status params (w ∷ ws) latest now).is_healthy ≡ true)
      ↔ ((pos 0 <ℤ params.max_checkpoint_lag) × All (InLimits params latest now) (w ∷ ws))
  status-is_healthy = (healthy_limits, limits_healthy)
