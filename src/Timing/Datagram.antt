-- ===== src/Timing/Datagram.antt =====
-- timing.rs: `DatagramTiming`, the 16-bit wire timestamps and the samples they give.
use mosh_client_rs.Prelude.{
  ℕ, ◌+◌, ◌-◌, ◌%◌, ◌^◌, Bool, false, Option, none, some, Unit0, M, ◌>>=◌, ◌>>◌, get, modify, pure,
  reject_if, ltb, leb, ◌==◌, if◌then◌else◌, checked_sub,
}
use mosh_client_rs.Limits.{max_timestamp_reply_age_ms, max_rtt_sample_ms}
use mosh_client_rs.Timing.Rtt.{
  RttEstimator, TimingError, time_moved_backwards, new_estimator, observe_sample,
}

abbrev pub timestamp_modulus : ℕ
timestamp_modulus = 2 ^ 16

abbrev pub no_timestamp_reply : ℕ
no_timestamp_reply = 2 ^ 16 - 1

pub record OutgoingTimestamps : Type 0 where
  pub timestamp : ℕ
  pub timestamp_reply : Option ℕ

pub data RttSampleDisposition : Type 0 where
  updated : (sample_ms : ℕ) → RttSampleDisposition
  no_reply reordered implausible : RttSampleDisposition

pub record DatagramTiming : Type 0 where
  pub estimator : RttEstimator
  pub highest_received_sequence : Option ℕ
  pub last_received_timestamp : Option (ℕ × ℕ)
  pub last_observed_ms : ℕ

abbrev pub new_timing : ℕ → DatagramTiming
new_timing started_at_ms = record {
  estimator = new_estimator;
  highest_received_sequence = none;
  last_received_timestamp = none;
  last_observed_ms = started_at_ms;
}

unfoldable pub wire_milliseconds : ℕ → ℕ
wire_milliseconds now = now % timestamp_modulus

-- `wrapping_add` and `wrapping_sub` of `u16`.
abbrev pub wrapping_add_u16 : ℕ → ℕ → ℕ
wrapping_add_u16 a b = (a + b) % 2 ^ 16

abbrev pub wrapping_sub_u16 : ℕ → ℕ → ℕ
wrapping_sub_u16 a b = (a + 2 ^ 16 - b) % 2 ^ 16

unfoldable pub observe_time : ℕ → M DatagramTiming TimingError Unit0
observe_time now = do
  t ← get
  reject_if (ltb now t.last_observed_ms) time_moved_backwards
  modify (λ u. record u { last_observed_ms = now })

-- The closure of `outgoing`: the peer's timestamp, moved on by the time it was held here.
unfoldable pub reply_to : ℕ → Option (ℕ × ℕ) → Option ℕ
reply_to now none = none
reply_to now (some (timestamp, received_at_ms)) = elim (checked_sub now received_at_ms) [
  | none ↦ none
  | some age ↦
      if ltb max_timestamp_reply_age_ms age
      then none
      else if leb age (2 ^ 16 - 1)
      then (if wrapping_add_u16 timestamp age == no_timestamp_reply
          then none
          else some (wrapping_add_u16 timestamp age))
      else none
]

unfoldable pub outgoing : ℕ → M DatagramTiming TimingError OutgoingTimestamps
outgoing now = do
  observe_time now
  t ← get
  pure (record {
    timestamp = wire_milliseconds now;
    timestamp_reply = reply_to now t.last_received_timestamp;
  })

abbrev is_reordered : ℕ → Option ℕ → Bool
is_reordered sequence none = false
is_reordered sequence (some highest) = leb sequence highest

-- `self.estimator.observe_sample(..)?`.
abbrev sample_into : ℕ → M DatagramTiming TimingError Unit0
sample_into sample t =
    let (e, r) = observe_sample sample t.estimator in (record t { estimator = e }, r)

unfoldable pub take_sample : ℕ → Option ℕ → M DatagramTiming TimingError RttSampleDisposition
take_sample now none = pure no_reply
take_sample now (some reply) =
    let sample = wrapping_sub_u16 (wire_milliseconds now) reply in
    if ltb max_rtt_sample_ms sample
    then pure implausible
    else (do sample_into sample; pure (updated sample))

-- The rest of `observe_received`, for a packet newer than every one before it.
unfoldable pub observe_newer :
    (sequence timestamp : ℕ) → Option ℕ → ℕ → M DatagramTiming TimingError RttSampleDisposition
observe_newer sequence timestamp timestamp_reply now = do
  modify (λ u. record u {
    highest_received_sequence = some sequence;
    last_received_timestamp = some (timestamp, now);
  })
  take_sample now timestamp_reply

unfoldable pub observe_received :
    (sequence timestamp : ℕ) → Option ℕ → ℕ → M DatagramTiming TimingError RttSampleDisposition
observe_received sequence timestamp timestamp_reply now = do
  observe_time now
  t ← get
  (if is_reordered sequence t.highest_received_sequence
      then pure reordered
      else observe_newer sequence timestamp timestamp_reply now)
