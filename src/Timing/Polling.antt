-- ===== src/Timing/Polling.antt =====
-- The promises of the scheduler to the loop that drives it.
use mosh_client_rs.Prelude.{
  ℕ, ◌+◌, ◌≤◌, ◌<◌, min, ◌≡◌, refl, sym, subst, ap, ◌∙◌, arith, true, false, Option, none, some, ok,
  err, leb, u64_max, ◌⊎◌, inl, inr, Bool-cases,
}
use mosh_client_rs.Limits.{heartbeat_interval_ms, max_retransmission_timeout_ms}
use mosh_client_rs.Timing.Rtt.{RttEstimator, stale_plan}
use mosh_client_rs.Timing.Bounds.{IsBounded}
use mosh_client_rs.Timing.Scheduler.{
  SendScheduler, pending, send, WakePlan, Deadlines, deadlines, decide, due_reasons, earliest, poll,
  commit_send, observe_time, is_due, is_deferred, contains_reason, state_change, retransmission,
  acknowledgement, heartbeat, local_change_due, deadline_of, checked_deadline, next_generation,
  note_local_change,
}
use mosh_client_rs.Timing.Due.{
  any_due, decide_due, decide_waits, poll-decide, due_reasons_bits, due_reasons_none,
}

pub deadlines_at :
    (s : SendScheduler) (timing : RttEstimator) (u : Option ℕ) (now : ℕ)
    → deadlines (record s { last_observed_ms = now }) timing u ≡ deadlines s timing u
unfolding deadlines local_change_due
deadlines_at s timing u now = refl

-- A wait ends later than now; and when it ends, either sends are deferred beyond that, or the scheduler
-- has an instruction to send.
pub poll_wakes :
    (now wake : ℕ) (timing : RttEstimator) (u : Option ℕ) (s t : SendScheduler)
    → poll now timing u s ≡ (t, ok (pending wake))
    → (now < wake)
      × ((is_deferred wake s.send_not_before_ms ≡ true)
          ⊎ ((plan : WakePlan) × ((poll wake timing u t).1 ≡ ok (send plan))
              × (plan.planned_at_ms ≡ wake)
              × (plan.generation ≡ s.generation)))
unfolding poll observe_time
poll_wakes now wake timing u s t h =
    let (same, on_time, found) = poll-decide now timing u s t (pending wake) h in
    let (d, e, w) = found in
    let (later, due) = decide_waits t now wake d w in
    (
      later,
      elim (Bool-cases (is_deferred wake s.send_not_before_ms)) [
        | inl held ↦ inl held
        | inr n ↦ inr (
          record { generation = t.generation; planned_at_ms = wake; reasons = due_reasons wake d },
          ground (
            arith,
            n,
            same,
            on_time,
            later,
            deadlines_at t timing u wake,
            e,
            h,
            decide_due (record t { last_observed_ms = wake }) wake d due,
          ),
          refl,
          ground (arith, same),
        )
      ],
    )

-- A plan names exactly the reasons whose deadlines have passed, at least one, and is handed out only
-- when no deferral holds.
pub poll-reasons :
    (now : ℕ) (timing : RttEstimator) (u : Option ℕ) (s t : SendScheduler) (plan : WakePlan)
    → poll now timing u s ≡ (t, ok (send plan))
    → (d : Deadlines) × (deadlines t timing u ≡ ok d)
      × (contains_reason plan.reasons state_change ≡ is_due now d.state_due)
      × (contains_reason plan.reasons retransmission ≡ is_due now d.retransmission_due)
      × (contains_reason plan.reasons acknowledgement ≡ is_due now d.acknowledgement_due)
      × (contains_reason plan.reasons heartbeat ≡ leb d.heartbeat_due now)
      × (any_due now d ≡ true)
      × (is_deferred now s.send_not_before_ms ≡ false)
unfolding decide
poll-reasons now timing u s t plan h =
    let (same, on_time, found) = poll-decide now timing u s t (send plan) h in
    let (d, e, w) = found in
    let b = due_reasons_bits now d in
    let n = due_reasons_none now d in
    let r : plan.reasons ≡ due_reasons now d = ground (arith, w) in
    (
      d,
      e,
      ap (λ x. contains_reason x state_change) r ∙ b.0,
      ap (λ x. contains_reason x retransmission) r ∙ b.1,
      ap (λ x. contains_reason x acknowledgement) r ∙ b.2,
      ap (λ x. contains_reason x heartbeat) r ∙ b.3,
      ground (arith, w, n),
      ground (arith, w, same),
    )

deadline-some :
    (at delay : ℕ) → at + delay ≤ u64_max → deadline_of (some at) delay ≡ ok (some (at + delay))
unfolding deadline_of checked_deadline
deadline-some at delay h = ground arith

deadline-none : (delay : ℕ) → deadline_of none delay ≡ ok none
unfolding deadline_of
deadline-none delay = refl

-- A scheduler that has just sent and knows of nothing new.
record IsQuiet (now : ℕ) (s : SendScheduler) : Type 0 where
  no_change : s.local_change_at_ms ≡ none
  no_acknowledgement : s.acknowledgement_at_ms ≡ none
  just_sent : s.last_send_ms ≡ some now
  observed : s.last_observed_ms ≡ now

abbrev quiet_deadlines : (now rto : ℕ) → Deadlines
quiet_deadlines now rto = record {
  state_due = none;
  acknowledgement_due = none;
  retransmission_due = some (now + rto);
  heartbeat_due = now + heartbeat_interval_ms;
}

IsQuiet-deadlines :
    (now : ℕ) (timing : RttEstimator) (s : SendScheduler)
    → IsQuiet now s
    → now + timing.retransmission_timeout_ms ≤ u64_max
    → now + heartbeat_interval_ms ≤ u64_max
    → deadlines s timing (some now) ≡ ok (quiet_deadlines now timing.retransmission_timeout_ms)
unfolding deadlines local_change_due checked_deadline
IsQuiet-deadlines now timing s q p r = ground (
  arith,
  q.no_change,
  q.no_acknowledgement,
  q.just_sent,
  deadline-some now timing.retransmission_timeout_ms p,
  deadline-none 100,
)

IsQuiet-decide :
    (now later rto : ℕ) (s : SendScheduler)
    → later < now + rto
    → later < now + heartbeat_interval_ms
    → decide s later (quiet_deadlines now rto)
      ≡ pending (min (now + rto) (now + heartbeat_interval_ms))
unfolding decide earliest
IsQuiet-decide now later rto s p q =
    ground (arith, due_reasons_none later (quiet_deadlines now rto))

IsQuiet-poll :
    (now later : ℕ) (timing : RttEstimator) (s : SendScheduler)
    → IsQuiet now s
    → now + timing.retransmission_timeout_ms ≤ u64_max
    → now + heartbeat_interval_ms ≤ u64_max
    → now ≤ later
    → later < now + timing.retransmission_timeout_ms
    → later < now + heartbeat_interval_ms
    → (poll later timing (some now) s).1
      ≡ ok (pending (min (now + timing.retransmission_timeout_ms) (now + heartbeat_interval_ms)))
unfolding poll observe_time
IsQuiet-poll now later timing s q p r le a b = ground (
  arith,
  q.observed,
  deadlines_at s timing (some now) later,
  IsQuiet-deadlines now timing s q p r,
  IsQuiet-decide now later timing.retransmission_timeout_ms (record s { last_observed_ms = later })
      a b,
)

commit_send-IsQuiet :
    (t : SendScheduler) (plan : WakePlan)
    → plan.generation ≡ t.generation
    → plan.planned_at_ms ≡ t.last_observed_ms
    → t.generation < u64_max
    → ((commit_send plan t).1 ≡ ok tt) × IsQuiet plan.planned_at_ms (commit_send plan t).0
unfolding commit_send next_generation
commit_send-IsQuiet t plan e o g = ground arith

-- After a plan is committed, with the instruction counted as sent now, the next poll waits, as long
-- as neither the retransmission timeout nor the heartbeat interval has passed, and it waits no longer
-- than the heartbeat interval.
pub commit_send-waits :
    (now later : ℕ) (timing timing' : RttEstimator) (u : Option ℕ) (s t : SendScheduler)
    (plan : WakePlan)
    → poll now timing u s ≡ (t, ok (send plan))
    → t.generation < u64_max
    → IsBounded timing'
    → now + max_retransmission_timeout_ms ≤ u64_max
    → now ≤ later
    → later < now + timing'.retransmission_timeout_ms
    → later < now + heartbeat_interval_ms
    → let c = commit_send plan t in
      (c.1 ≡ ok tt)
      × ((wake : ℕ) × ((poll later timing' (some now) c.0).1 ≡ ok (pending wake))
          × (later < wake)
          × (wake ≤ now + heartbeat_interval_ms))
unfolding decide
commit_send-waits now later timing timing' u s t plan h g v fits le rto beat =
    let (same, on_time, found) = poll-decide now timing u s t (send plan) h in
    let (d, e, w) = found in
    let planned : plan.planned_at_ms ≡ now = ground (arith, w) in
    let generation : plan.generation ≡ t.generation = ground (arith, w) in
    let observed : t.last_observed_ms ≡ now = ground (arith, same) in
    let c = commit_send-IsQuiet t plan generation (planned ∙ sym observed) g in
    (
      c.0,
      (
        min (now + timing'.retransmission_timeout_ms) (now + heartbeat_interval_ms),
        IsQuiet-poll now later timing' (commit_send plan t).0
            (subst (λ n. IsQuiet n (commit_send plan t).0) planned c.1)
            (omega (arith, v.timeout_le)) (omega arith) le rto beat,
        omega arith,
        omega arith,
      ),
    )

-- A change noted between the poll and the commit, where none was known, makes the plan stale.
note_local_change-stale :
    (now later : ℕ) (timing : RttEstimator) (u : Option ℕ) (s t : SendScheduler) (plan : WakePlan)
    → poll now timing u s ≡ (t, ok (send plan))
    → t.local_change_at_ms ≡ none
    → t.generation < u64_max
    → now ≤ later
    → let n = note_local_change later t in
      (n.1 ≡ ok tt) × (commit_send plan n.0 ≡ (n.0, err stale_plan))
unfolding decide note_local_change commit_send
note_local_change-stale now later timing u s t plan h none_yet g le =
    let (same, on_time, found) = poll-decide now timing u s t (send plan) h in
    let (d, e, w) = found in
    let generation : plan.generation ≡ t.generation = ground (arith, w) in
    let observed : t.last_observed_ms ≡ now = ground (arith, same) in
    ground (arith, none_yet, generation, observed)
