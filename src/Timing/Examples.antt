-- ===== src/Timing/Examples.antt =====
-- Runs of the estimator, the datagram timing and the scheduler, and the theorems at concrete inputs.
use mosh_client_rs.Prelude.{
  ◌⊎◌, ℕ, ◌+◌, ◌≤◌, ◌<◌, ◌≡◌, refl, arith, true, false, none, some, ok, err, leb,
}
use mosh_client_rs.Limits.{max_rtt_sample_ms, heartbeat_interval_ms}
use mosh_client_rs.Timing.Rtt.{
  RttEstimator, invalid_rtt_sample, new_estimator, observe_sample, smooth, calculate_rto_ms,
  frame_interval_ms,
}
use mosh_client_rs.Timing.Bounds.{
  IsBounded, new_estimator-IsBounded, observe_sample_total, next_smoothed, next_variation,
}
use mosh_client_rs.Timing.Datagram.{
  DatagramTiming, updated, new_timing, outgoing, observe_received, wire_milliseconds,
}
use mosh_client_rs.Timing.Exchange.{outgoing-observe_received}
use mosh_client_rs.Timing.Scheduler.{
  SendScheduler, pending, send, WakePlan, Deadlines, deadlines, decide, due_reasons, earliest, poll,
  commit_send, new_scheduler, is_due, is_deferred, contains_reason, state_change, retransmission,
  acknowledgement, heartbeat, note_local_change,
}
use mosh_client_rs.Timing.Due.{any_due}
use mosh_client_rs.Timing.Polling.{poll_wakes, poll-reasons, commit_send-waits}
use mosh_client_rs.Timing.Waiting.{poll_until_wake}

abbrev after_100 : RttEstimator
after_100 = record {
  smoothed_rtt_eighths = some 800;
  rtt_variation_eighths = 400;
  retransmission_timeout_ms = 300;
}

observe_sample_100 : observe_sample 100 new_estimator ≡ (after_100, ok tt)
unfolding observe_sample smooth calculate_rto_ms
observe_sample_100 = refl

observe_sample_total_example :
    ((100 ≤ max_rtt_sample_ms)
      × ((observe_sample 100 new_estimator).1 ≡ ok tt)
      × IsBounded (observe_sample 100 new_estimator).0
      × ((observe_sample 100 new_estimator).0.smoothed_rtt_eighths ≡ some (next_smoothed 100 none))
      × ((observe_sample 100 new_estimator).0.rtt_variation_eighths ≡ next_variation 100 none 0))
    ⊎ ((max_rtt_sample_ms < 100)
        × (observe_sample 100 new_estimator ≡ (new_estimator, err invalid_rtt_sample)))
observe_sample_total_example = observe_sample_total 100 new_estimator new_estimator-IsBounded

-- The peer has received our timestamp of 65,530 at 7 on its clock.
abbrev peer : DatagramTiming
peer = record {
  estimator = new_estimator;
  highest_received_sequence = some 0;
  last_received_timestamp = some (65530, 7);
  last_observed_ms = 7;
}

outgoing-observe_received_example :
    (reply : ℕ) × ((outgoing (7 + 10) peer).1
      ≡ ok (record { timestamp = wire_milliseconds (7 + 10); timestamp_reply = some reply }))
    × ((observe_received 0 9 (some reply) (65530 + 10 + 80) (new_timing 0)).1 ≡ ok (updated 80))
unfolding wire_milliseconds
outgoing-observe_received_example =
    outgoing-observe_received peer (new_timing 0) 65530 7 10 80 0 9 refl (omega arith) (omega arith)
      (omega arith) (omega arith) new_estimator-IsBounded (omega arith) refl

abbrev changed : SendScheduler
changed = record (new_scheduler 0) { local_change_at_ms = some 0; generation = 1 }

note_local_change_new : note_local_change 0 (new_scheduler 0) ≡ (changed, ok tt)
unfolding note_local_change
note_local_change_new = refl

poll-changed : poll 0 new_estimator none changed ≡ (changed, ok (pending 15))
unfolding poll deadlines decide due_reasons earliest frame_interval_ms
poll-changed = refl

abbrev later_changed : SendScheduler
later_changed = record changed { last_observed_ms = 15 }

abbrev change_plan : WakePlan
change_plan = record { generation = 1; planned_at_ms = 15; reasons = 1 }

poll_later : poll 15 new_estimator none changed ≡ (later_changed, ok (send change_plan))
unfolding poll deadlines decide due_reasons earliest frame_interval_ms
poll_later = refl

poll_until_wake_example :
    poll 9 new_estimator none changed ≡ (record changed { last_observed_ms = 9 }, ok (pending 15))
poll_until_wake_example =
    poll_until_wake 0 9 15 new_estimator none changed changed poll-changed (omega arith)
      (omega arith)

poll_wakes_example :
    (0 < 15)
    × ((is_deferred 15 none ≡ true)
        ⊎ ((plan : WakePlan) × ((poll 15 new_estimator none changed).1 ≡ ok (send plan))
            × (plan.planned_at_ms ≡ 15)
            × (plan.generation ≡ 1)))
poll_wakes_example = poll_wakes 0 15 new_estimator none changed changed poll-changed

poll-reasons_example :
    (d : Deadlines) × (deadlines later_changed new_estimator none ≡ ok d)
    × (contains_reason 1 state_change ≡ is_due 15 d.state_due)
    × (contains_reason 1 retransmission ≡ is_due 15 d.retransmission_due)
    × (contains_reason 1 acknowledgement ≡ is_due 15 d.acknowledgement_due)
    × (contains_reason 1 heartbeat ≡ leb d.heartbeat_due 15)
    × (any_due 15 d ≡ true)
    × (is_deferred 15 none ≡ false)
poll-reasons_example =
    poll-reasons 15 new_estimator none changed later_changed change_plan poll_later

commit_send-waits_example :
    let c = commit_send change_plan later_changed in
    (c.1 ≡ ok tt)
    × ((wake : ℕ) × ((poll 40 new_estimator (some 15) c.0).1 ≡ ok (pending wake))
        × (40 < wake)
        × (wake ≤ 15 + heartbeat_interval_ms))
commit_send-waits_example =
    commit_send-waits 15 40 new_estimator new_estimator none changed later_changed change_plan
      poll_later (omega arith) new_estimator-IsBounded (omega arith) (omega arith) (omega arith)
      (omega arith)

-- A scheduler that only its heartbeat wakes.
abbrev resting : SendScheduler
resting = record (new_scheduler 0) { last_observed_ms = 3000 }

poll-resting :
    poll 3000 new_estimator none (new_scheduler 0)
    ≡ (resting, ok (send (record { generation = 0; planned_at_ms = 3000; reasons = 8 })))
unfolding poll deadlines decide due_reasons earliest frame_interval_ms
poll-resting = refl
