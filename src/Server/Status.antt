-- ===== src/Server/Status.antt =====
-- deepbookv3/crates/server/src/server.rs, `status`: how far the pipelines are behind the chain.
pub mod Laws
pub mod Earliest
use rain_protocol.Prelude.{
  ℕ, ◌-◌, ◌^◌, String, Bool, true, false, ◌&&◌, List, [], ◌∷◌, map, if◌then◌else◌,
}
use rain_protocol.Prelude.Int.{ℤ, pos, ◌/ℤ◌, ltb_ℤ, eqb_ℤ}
use rain_protocol.Prelude.Words.{as_i64, sub_i64}

-- A row of `Reader::get_watermarks`.
pub record Watermark : Type 0 where
  pub pipeline : String
  pub checkpoint_hi : ℤ
  pub timestamp_ms_hi : ℤ
  pub epoch_hi : ℤ

pub record StatusQueryParams : Type 0 where
  pub max_checkpoint_lag : ℤ
  pub max_time_lag_seconds : ℤ

unfoldable pub default_max_checkpoint_lag : ℤ
default_max_checkpoint_lag = pos 100

unfoldable pub default_max_time_lag_seconds : ℤ
default_max_time_lag_seconds = pos 60

-- The JSON object of one pipeline.
pub record PipelineStatus : Type 0 where
  pub pipeline : String
  pub indexed_checkpoint : ℤ
  pub indexed_epoch : ℤ
  pub indexed_timestamp_ms : ℤ
  pub checkpoint_lag : ℤ
  pub time_lag_seconds : ℤ
  pub latest_onchain_checkpoint : ℕ

abbrev pub i64_max : ℤ
i64_max = pos (2 ^ 63 - 1)

-- The variables that the loop over the watermarks changes, but for `pipelines`.
pub record Lag : Type 0 where
  pub min_checkpoint : ℤ
  pub max_lag_pipeline_name : String
  pub max_checkpoint_lag : ℤ

abbrev pub no_lag : Lag
no_lag = record { min_checkpoint = i64_max; max_lag_pipeline_name = ""; max_checkpoint_lag = pos 0 }

unfoldable pub lag_of : ℕ → Watermark → ℤ
lag_of latest_checkpoint w = sub_i64 (as_i64 latest_checkpoint) w.checkpoint_hi

unfoldable pub pipeline_status : ℕ → ℤ → Watermark → PipelineStatus
unfolding lag_of
pipeline_status latest_checkpoint current_time_ms w = record {
  pipeline = w.pipeline;
  indexed_checkpoint = w.checkpoint_hi;
  indexed_epoch = w.epoch_hi;
  indexed_timestamp_ms = w.timestamp_ms_hi;
  checkpoint_lag = lag_of latest_checkpoint w;
  time_lag_seconds = sub_i64 current_time_ms w.timestamp_ms_hi /ℤ 1000;
  latest_onchain_checkpoint = latest_checkpoint;
}

abbrev pub track_earliest : Watermark → Lag → Lag
track_earliest w s =
    if ltb_ℤ w.checkpoint_hi s.min_checkpoint
    then record s { min_checkpoint = w.checkpoint_hi }
    else s

abbrev pub track_max_lag : Watermark → ℤ → Lag → Lag
track_max_lag w checkpoint_lag s =
    if ltb_ℤ s.max_checkpoint_lag checkpoint_lag
    then record s { max_checkpoint_lag = checkpoint_lag; max_lag_pipeline_name = w.pipeline }
    else s

-- The loop.
unfoldable pub track : ℕ → Lag → List Watermark → Lag
unfolding lag_of
track latest_checkpoint s [] = s
track latest_checkpoint s (w ∷ rest) =
    track latest_checkpoint (track_max_lag w (lag_of latest_checkpoint w) (track_earliest w s)) rest

-- `iter.max()` behind a first element.
abbrev pub max_from : ℤ → List ℤ → ℤ
max_from m [] = m
max_from m (x ∷ xs) = max_from (if ltb_ℤ x m then m else x) xs

-- `.max().unwrap_or(0)`.
unfoldable pub max_or_zero : List ℤ → ℤ
max_or_zero [] = pos 0
max_or_zero (x ∷ xs) = max_from x xs

pub record Status : Type 0 where
  pub is_healthy : Bool
  pub latest_onchain_checkpoint : ℕ
  pub current_time_ms : ℤ
  pub earliest_checkpoint : ℤ
  pub max_lag_pipeline : String
  pub pipelines : List PipelineStatus
  pub max_checkpoint_lag : ℤ
  pub max_time_lag_seconds : ℤ

-- The handler behind its three reads: the watermarks, the latest checkpoint, and the clock.
unfoldable pub status : StatusQueryParams → List Watermark → ℕ → ℤ → Status
unfolding track pipeline_status max_or_zero
status params watermarks latest_checkpoint current_time_ms =
    let s = track latest_checkpoint no_lag watermarks in
    let pipelines = map (pipeline_status latest_checkpoint current_time_ms) watermarks in
    let max_time_lag = max_or_zero (map (λ (p : PipelineStatus). p.time_lag_seconds) pipelines) in
    record {
      is_healthy =
          ltb_ℤ s.max_checkpoint_lag params.max_checkpoint_lag
          && ltb_ℤ max_time_lag params.max_time_lag_seconds;
      latest_onchain_checkpoint = latest_checkpoint;
      current_time_ms = current_time_ms;
      earliest_checkpoint = if eqb_ℤ s.min_checkpoint i64_max then pos 0 else s.min_checkpoint;
      max_lag_pipeline = s.max_lag_pipeline_name;
      pipelines = pipelines;
      max_checkpoint_lag = s.max_checkpoint_lag;
      max_time_lag_seconds = max_time_lag;
    }
