-- ===== src/Timing/Bounds.antt =====
-- The estimator never overflows on an accepted sample, and what it reports stays in its bounds.
use mosh_client_rs.Prelude.{
  ◌⊎◌, inl, inr, dec_lt, ℕ, ◌+◌, ◌*◌, ◌/◌, ◌≤◌, ◌<◌, max, ◌≡◌, arith, Option, none, some, ok, err,
  div_ceil, clamp, abs_diff,
}
use mosh_client_rs.Limits.{
  max_rtt_sample_ms, min_retransmission_timeout_ms, max_retransmission_timeout_ms,
}
use mosh_client_rs.Timing.Rtt.{
  RttEstimator, invalid_rtt_sample, new_estimator, observe_sample, smooth, calculate_rto_ms,
}

-- Eighths of a millisecond of the longest sample.
abbrev pub max_eighths : ℕ
max_eighths = max_rtt_sample_ms * 8

abbrev pub AtMost : ℕ → Option ℕ → Type 0
AtMost n none = Unit
AtMost n (some v) = v ≤ n

pub record IsBounded (e : RttEstimator) : Type 0 where
  pub smoothed_le : AtMost max_eighths e.smoothed_rtt_eighths
  pub variation_le : e.rtt_variation_eighths ≤ max_eighths
  pub timeout_ge : min_retransmission_timeout_ms ≤ e.retransmission_timeout_ms
  pub timeout_le : e.retransmission_timeout_ms ≤ max_retransmission_timeout_ms

pub new_estimator-IsBounded : IsBounded new_estimator
new_estimator-IsBounded = record {
  smoothed_le = tt;
  variation_le = omega arith;
  timeout_ge = omega arith;
  timeout_le = omega arith;
}

calculate_rto_ms-bounds :
    (smoothed variation : ℕ)
    → smoothed ≤ max_eighths
    → variation ≤ max_eighths
    → (rto : ℕ) × (calculate_rto_ms smoothed variation ≡ ok rto)
      × (min_retransmission_timeout_ms ≤ rto)
      × (rto ≤ max_retransmission_timeout_ms)
unfolding calculate_rto_ms
calculate_rto_ms-bounds smoothed variation p q = (
  clamp min_retransmission_timeout_ms max_retransmission_timeout_ms
      (div_ceil (smoothed + max (variation * 4) 8) 8),
  ground arith,
  omega arith,
  omega arith,
)

-- The averages after a sample.
abbrev pub next_smoothed : ℕ → Option ℕ → ℕ
next_smoothed sample none = sample * 8
next_smoothed sample (some smoothed) = (smoothed * 7 + sample * 8) / 8

abbrev pub next_variation : ℕ → Option ℕ → ℕ → ℕ
next_variation sample none variation = sample * 4
next_variation sample (some smoothed) variation =
    (variation * 3 + abs_diff smoothed (sample * 8)) / 4

smooth-ok :
    (sample : ℕ) (o : Option ℕ) (e : RttEstimator)
    → sample ≤ max_rtt_sample_ms
    → AtMost max_eighths o
    → e.rtt_variation_eighths ≤ max_eighths
    → smooth sample (sample * 8) o e ≡ (
      record e {
        smoothed_rtt_eighths = some (next_smoothed sample o);
        rtt_variation_eighths = next_variation sample o e.rtt_variation_eighths;
      },
      ok (next_smoothed sample o),
    )
unfolding smooth
smooth-ok sample none e p q r = ground arith
smooth-ok sample (some s) e p q r = ground arith

next-bounds :
    (sample : ℕ) (o : Option ℕ) (variation : ℕ)
    → sample ≤ max_rtt_sample_ms
    → AtMost max_eighths o
    → variation ≤ max_eighths
    → (next_smoothed sample o ≤ max_eighths) × (next_variation sample o variation ≤ max_eighths)
next-bounds sample none variation p q r = omega arith
next-bounds sample (some s) variation p q r = omega arith

-- An accepted sample is always taken in: no arithmetic overflows, both averages are the published
-- ones, and the estimator stays bounded, its timeout between 50 and 5,000 ms. A longer sample is
-- refused and changes nothing.
pub observe_sample_total :
    (sample : ℕ) (e : RttEstimator)
    → IsBounded e
    → ((sample ≤ max_rtt_sample_ms)
        × ((observe_sample sample e).1 ≡ ok tt)
        × IsBounded (observe_sample sample e).0
        × ((observe_sample sample e).0.smoothed_rtt_eighths
            ≡ some (next_smoothed sample e.smoothed_rtt_eighths))
        × ((observe_sample sample e).0.rtt_variation_eighths
            ≡ next_variation sample e.smoothed_rtt_eighths e.rtt_variation_eighths))
      ⊎ ((max_rtt_sample_ms < sample) × (observe_sample sample e ≡ (e, err invalid_rtt_sample)))
unfolding observe_sample
observe_sample_total sample e v = elim (dec_lt max_rtt_sample_ms sample) [
  | yes long ↦ inr (long, ground arith)
  | no short ↦
      let o = e.smoothed_rtt_eighths in
      let variation = e.rtt_variation_eighths in
      let fits : sample ≤ max_rtt_sample_ms = omega arith in
      let b = next-bounds sample o variation fits v.smoothed_le v.variation_le in
      let s = smooth-ok sample o e fits v.smoothed_le v.variation_le in
      let (rto, c, lo, hi) =
        calculate_rto_ms-bounds (next_smoothed sample o) (next_variation sample o variation) b.0
          b.1 in
      inl (
        fits,
        ground (arith, s, c),
        ground (arith, s, c, b, lo, hi),
        ground (arith, s, c),
        ground (arith, s, c),
      )
]
