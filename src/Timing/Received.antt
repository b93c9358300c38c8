-- ===== src/Timing/Received.antt =====
-- What `observe_received` does with any packet.
use mosh_client_rs.Prelude.{
  ◌⊎◌, inl, inr, ℕ, ◌+◌, ◌-◌, ◌%◌, ◌^◌, ◌≤◌, ◌<◌, ◌≡◌, ◌≢◌, refl, arith, true, false, Option, none,
  some, ok, err, dec_lt, Bool-cases,
}
use mosh_client_rs.Limits.{max_rtt_sample_ms}
use mosh_client_rs.Timing.Rtt.{time_moved_backwards}
use mosh_client_rs.Timing.Bounds.{IsBounded, observe_sample_total}
use mosh_client_rs.Timing.Datagram.{
  DatagramTiming, RttSampleDisposition, updated, no_reply, reordered, implausible, observe_received,
  observe_newer, observe_time, take_sample, wire_milliseconds,
}
use mosh_client_rs.Timing.Exchange.{is_newer}

take_sample-keeps :
    (now : ℕ) (reply : Option ℕ) (t : DatagramTiming)
    → IsBounded t.estimator
    → ((d : RttSampleDisposition) × ((take_sample now reply t).1 ≡ ok d) × (d ≢ reordered))
      × IsBounded (take_sample now reply t).0.estimator
      × ((take_sample now reply t).0
          ≡ record t { estimator = (take_sample now reply t).0.estimator })
unfolding take_sample
take_sample-keeps now none t v = ((no_reply, refl, λ e. cc), v, refl)
take_sample-keeps now (some reply) t v = elim (dec_lt max_rtt_sample_ms sample) [
  | yes far ↦ ((implausible, ground arith, λ e. cc), ground (arith, v), ground arith)
  | no near ↦
      let o = observe_sample_total sample t.estimator v in
      ((updated sample, ground (arith, o), λ e. cc), ground (arith, o, v), ground (arith, o))
]
  where
    sample : ℕ
    sample = (wire_milliseconds now + 2 ^ 16 - reply) % 2 ^ 16

-- The state in which a newer packet's timestamp is sampled.
abbrev entered : (sequence timestamp now : ℕ) → DatagramTiming → DatagramTiming
entered sequence timestamp now t = record t {
  highest_received_sequence = some sequence;
  last_received_timestamp = some (timestamp, now);
  last_observed_ms = now;
}

-- A received packet is taken in unless time moved backwards, which changes nothing. A packet that is
-- not newer than every one before only moves the clock; a newer one is recorded with its timestamp.
-- The estimator stays bounded.
observe_received_total :
    (sequence timestamp : ℕ) (reply : Option ℕ) (now : ℕ) (t : DatagramTiming)
    → IsBounded t.estimator
    → let r = observe_received sequence timestamp reply now t in
      ((now < t.last_observed_ms) × (r ≡ (t, err time_moved_backwards)))
      ⊎ ((t.last_observed_ms ≤ now)
          × (is_newer sequence t.highest_received_sequence ≡ false)
          × (r ≡ (record t { last_observed_ms = now }, ok reordered)))
      ⊎ ((t.last_observed_ms ≤ now)
          × (is_newer sequence t.highest_received_sequence ≡ true)
          × IsBounded r.0.estimator
          × (r.0 ≡ record {
            estimator = r.0.estimator;
            highest_received_sequence = some sequence;
            last_received_timestamp = some (timestamp, now);
            last_observed_ms = now;
          })
          × ((d : RttSampleDisposition) × (r.1 ≡ ok d) × (d ≢ reordered)))
unfolding observe_received observe_newer observe_time
observe_received_total sequence timestamp reply now t v = elim (dec_lt now t.last_observed_ms) [
  | yes back ↦ inl (back, ground arith)
  | no forward ↦
      let on_time : t.last_observed_ms ≤ now = omega arith in
      elim (Bool-cases (is_newer sequence t.highest_received_sequence)) [
        | inr old ↦ inr (inl (on_time, old, ground (arith, old)))
        | inl newer ↦
            let (d, bounded, same) =
              take_sample-keeps now reply (entered sequence timestamp now t) v in
            let e : observe_received sequence timestamp reply now t
                ≡ take_sample now reply (entered sequence timestamp now t) =
              ground (arith, newer) in
            inr (inr (on_time, newer, rw e bounded, rw e same, rw e d))
      ]
]
