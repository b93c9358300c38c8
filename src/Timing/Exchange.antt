-- ===== src/Timing/Exchange.antt =====
-- What two ends that exchange wire timestamps measure, across the wrap of the 16-bit clock.
use mosh_client_rs.Prelude.{
  ℕ, ◌+◌, ◌-◌, ◌%◌, ◌≤◌, ◌≡◌, ◌≢◌, arith, Bool, true, Option, none, some, ok, ltb,
}
use mosh_client_rs.Limits.{max_timestamp_reply_age_ms, max_rtt_sample_ms}
use mosh_client_rs.Timing.Bounds.{IsBounded, observe_sample_total}
use mosh_client_rs.Timing.Datagram.{
  DatagramTiming, updated, outgoing, observe_received, observe_newer, observe_time, reply_to,
  take_sample, wire_milliseconds, no_timestamp_reply,
}

abbrev pub is_newer : ℕ → Option ℕ → Bool
is_newer sequence none = true
is_newer sequence (some highest) = ltb highest sequence

-- A peer that holds a timestamp for `age` at most 1,000 ms answers it moved on by that age, unless
-- the sum is the marker for no reply.
reply_to-held :
    (timestamp received age : ℕ)
    → age ≤ max_timestamp_reply_age_ms
    → (timestamp + age) % 65536 ≢ no_timestamp_reply
    → reply_to (received + age) (some (timestamp, received)) ≡ some ((timestamp + age) % 65536)
unfolding reply_to
reply_to-held timestamp received age h m = ground arith

-- One end sends at `sent`; the other receives that timestamp at `received` on its own clock, and
-- `age` later, at most 1,000 ms, makes its reply. If the first end, whose estimator is bounded, gets
-- the reply `travel` ms of network time after that in a packet newer than any before, it measures
-- exactly `travel`, also across a wrap, up to the longest sample.
pub outgoing-observe_received :
    (peer here : DatagramTiming) (sent received age travel sequence timestamp : ℕ)
    → peer.last_received_timestamp ≡ some (wire_milliseconds sent, received)
    → peer.last_observed_ms ≤ received + age
    → age ≤ max_timestamp_reply_age_ms
    → (sent + age) % 65536 ≢ no_timestamp_reply
    → travel ≤ max_rtt_sample_ms
    → IsBounded here.estimator
    → here.last_observed_ms ≤ sent + age + travel
    → is_newer sequence here.highest_received_sequence ≡ true
    → (reply : ℕ) × ((outgoing (received + age) peer).1
        ≡ ok (record {
          timestamp = wire_milliseconds (received + age);
          timestamp_reply = some reply;
        }))
      × ((observe_received sequence timestamp (some reply) (sent + age + travel) here).1
          ≡ ok (updated travel))
unfolding outgoing observe_received observe_newer observe_time take_sample wire_milliseconds
outgoing-observe_received peer here sent received age travel sequence timestamp last on_time held
      mark short v time newer =
    (
      (sent % 65536 + age) % 65536,
      ground (arith, last, reply_to-held (sent % 65536) received age held (omega arith), on_time),
      ground (arith, time, newer, observe_sample_total travel here.estimator v, measured),
    )
  where
    measured :
        ((sent + age + travel) % 65536 + 65536 - (sent % 65536 + age) % 65536) % 65536 ≡ travel
    measured = omega arith
