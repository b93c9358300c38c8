-- ===== src/Timing/Waiting.antt =====
-- A wait that `poll` asks for is no longer than it must be.
use mosh_client_rs.Prelude.{◌≡◌, refl, arith, ℕ, ◌≤◌, ◌<◌, Option, some, ok, Option-cases, inl, inr}
use mosh_client_rs.Timing.Rtt.{RttEstimator}
use mosh_client_rs.Timing.Scheduler.{SendScheduler, Deadlines, decide, pending, poll, observe_time}
use mosh_client_rs.Timing.Due.{decide_until, poll-decide}
use mosh_client_rs.Timing.Polling.{deadlines_at}

not_after :
    (now : ℕ) (timing : RttEstimator) (u : Option ℕ) (sent wake : ℕ) (s t : SendScheduler)
    → u ≡ some sent
    → poll now timing u s ≡ (t, ok (pending wake))
    → sent ≤ now
unfolding poll
not_after now timing u sent wake s t e h = ground (arith, e, h)

decide_at :
    (s : SendScheduler) (at : ℕ) (d : Deadlines)
    → decide (record s { last_observed_ms = at }) at d ≡ decide s at d
unfolding decide
decide_at s at d = refl

-- Until a wait ends nothing is due: a poll in between asks for the same wake, and hands out no plan.
pub poll_until_wake :
    (now at wake : ℕ) (timing : RttEstimator) (u : Option ℕ) (s t : SendScheduler)
    → poll now timing u s ≡ (t, ok (pending wake))
    → now ≤ at
    → at < wake
    → poll at timing u t ≡ (record t { last_observed_ms = at }, ok (pending wake))
unfolding poll observe_time
poll_until_wake now at wake timing u s t h le lt =
    let (same, on_time, found) = poll-decide now timing u s t (pending wake) h in
    let (d, e, w) = found in
    let still = decide_until t now at wake d w le lt in
    elim (Option-cases u) [
      | inl n ↦ ground (arith, same, le, n, e, still, deadlines_at t timing u at, decide_at t at d)
      | inr (sent, n) ↦
          let past = not_after now timing u sent wake s t n h in
          ground (arith, same, le, n, past, e, still, deadlines_at t timing u at, decide_at t at d)
    ]
