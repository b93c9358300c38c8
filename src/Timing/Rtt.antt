-- ===== src/Timing/Rtt.antt =====
-- timing.rs: `RttEstimator`, the integer SRTT and RTTVAR update in eighths of a millisecond.
use mosh_client_rs.Prelude.{
  ℕ, ◌*◌, ◌/◌, max, Option, none, some, Unit0, M, Result, ok, ◌>>=◌, ◌>>◌, get, modify, pure, lift,
  ok_or, try, reject_if, checked_add, checked_mul, div_ceil, clamp, abs_diff, ltb,
}
use mosh_client_rs.Limits.{
  initial_retransmission_timeout_ms, max_frame_interval_ms, max_retransmission_timeout_ms,
  max_rtt_sample_ms, min_frame_interval_ms, min_retransmission_timeout_ms,
}

pub data TimingError : Type 0 where
  time_moved_backwards : TimingError
  timer_exhausted : TimingError
  invalid_rtt_sample : TimingError
  stale_plan : TimingError
  generation_exhausted : TimingError

abbrev pub clock_granularity_ms : ℕ
clock_granularity_ms = 1

pub record RttEstimator : Type 0 where
  pub smoothed_rtt_eighths : Option ℕ
  pub rtt_variation_eighths : ℕ
  pub retransmission_timeout_ms : ℕ

abbrev pub new_estimator : RttEstimator
new_estimator = record {
  smoothed_rtt_eighths = none;
  rtt_variation_eighths = 0;
  retransmission_timeout_ms = initial_retransmission_timeout_ms;
}

unfoldable pub smoothed_rtt_ms : RttEstimator → Option ℕ
smoothed_rtt_ms e = elim e.smoothed_rtt_eighths [
  | some value ↦ some (div_ceil value 8)
  | none ↦ none
]

abbrev half_or_max : Option ℕ → ℕ
half_or_max none = max_frame_interval_ms
half_or_max (some smoothed) = div_ceil smoothed 2

unfoldable pub frame_interval_ms : RttEstimator → ℕ
unfolding smoothed_rtt_ms
frame_interval_ms e =
    clamp min_frame_interval_ms max_frame_interval_ms (half_or_max (smoothed_rtt_ms e))

-- `calculate_rto_ms`, at the smoothed value that `observe_sample` has just stored: its `expect` finds
-- that value.
unfoldable pub calculate_rto_ms : (smoothed variation : ℕ) → Result TimingError ℕ
calculate_rto_ms smoothed variation =
    try (ok_or (checked_mul variation 4) timer_exhausted) λ weighted.
      try (ok_or (checked_add smoothed (max weighted (clock_granularity_ms * 8))) timer_exhausted)
        λ timeout_eighths. ok (
          clamp min_retransmission_timeout_ms max_retransmission_timeout_ms
            (div_ceil timeout_eighths 8))

-- `checked_mul` and `checked_add`: the weighted sum of an average, before its division.
abbrev weigh : (value weight sample : ℕ) → Result TimingError ℕ
weigh value weight sample =
    try (ok_or (checked_mul value weight) timer_exhausted)
      λ weighted. ok_or (checked_add weighted sample) timer_exhausted

-- The `match` of `observe_sample`: both averages are stored, and the smoothed one is returned.
unfoldable pub smooth : ℕ → ℕ → Option ℕ → M RttEstimator TimingError ℕ
smooth sample eighths none = do
  modify (λ e. record e { smoothed_rtt_eighths = some eighths })
  variation ← lift (ok_or (checked_mul sample 4) timer_exhausted)
  modify (λ e. record e { rtt_variation_eighths = variation })
  pure eighths
smooth sample eighths (some smoothed) = do
  e ← get
  varied ← lift (weigh e.rtt_variation_eighths 3 (abs_diff smoothed eighths))
  modify (λ f. record f { rtt_variation_eighths = varied / 4 })
  averaged ← lift (weigh smoothed 7 eighths)
  modify (λ f. record f { smoothed_rtt_eighths = some (averaged / 8) })
  pure (averaged / 8)

unfoldable pub observe_sample : ℕ → M RttEstimator TimingError Unit0
observe_sample sample = do
  reject_if (ltb max_rtt_sample_ms sample) invalid_rtt_sample
  eighths ← lift (ok_or (checked_mul sample 8) timer_exhausted)
  e ← get
  smoothed ← smooth sample eighths e.smoothed_rtt_eighths
  f ← get
  timeout ← lift (calculate_rto_ms smoothed f.rtt_variation_eighths)
  modify (λ g. record g { retransmission_timeout_ms = timeout })
