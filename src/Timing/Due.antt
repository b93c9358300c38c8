-- ===== src/Timing/Due.antt =====
-- When the scheduler sends and when it waits.
use mosh_client_rs.Prelude.{
  Bool-cases, inl, inr, ℕ, ◌≤◌, ◌<◌, ◌≡◌, arith, Bool, true, false, not, ◌||◌, Option, ok,
  Result-cases, leb, ◌==◌,
}
use mosh_client_rs.Timing.Rtt.{RttEstimator}
use mosh_client_rs.Timing.Scheduler.{
  SendScheduler, SchedulerPoll, pending, send, Deadlines, deadlines, decide, due_reasons, earliest,
  poll, is_due, is_deferred, insert_if, contains_reason, state_change, retransmission,
  acknowledgement, heartbeat,
}

-- The reasons as a function of the four tests.
abbrev reasons_of : (state retransmit acknowledge beat : Bool) → ℕ
reasons_of state retransmit acknowledge beat = insert_if beat heartbeat (
    insert_if acknowledge acknowledgement
      (insert_if retransmit retransmission (insert_if state state_change 0)))

reasons_of_bits :
    (a b c e : Bool)
    → (contains_reason (reasons_of a b c e) state_change ≡ a)
      × (contains_reason (reasons_of a b c e) retransmission ≡ b)
      × (contains_reason (reasons_of a b c e) acknowledgement ≡ c)
      × (contains_reason (reasons_of a b c e) heartbeat ≡ e)
unfolding contains_reason
reasons_of_bits a b c e = ground arith

reasons_of_none : (a b c e : Bool) → (reasons_of a b c e == 0) ≡ not (a || b || c || e)
reasons_of_none a b c e = ground arith

-- Has any deadline passed?
abbrev pub any_due : ℕ → Deadlines → Bool
any_due now d =
    is_due now d.state_due
    || is_due now d.retransmission_due
    || is_due now d.acknowledgement_due
    || leb d.heartbeat_due now

pub due_reasons_bits :
    (now : ℕ) (d : Deadlines)
    → (contains_reason (due_reasons now d) state_change ≡ is_due now d.state_due)
      × (contains_reason (due_reasons now d) retransmission ≡ is_due now d.retransmission_due)
      × (contains_reason (due_reasons now d) acknowledgement ≡ is_due now d.acknowledgement_due)
      × (contains_reason (due_reasons now d) heartbeat ≡ leb d.heartbeat_due now)
unfolding due_reasons
due_reasons_bits now d =
    reasons_of_bits (is_due now d.state_due) (is_due now d.retransmission_due)
      (is_due now d.acknowledgement_due) (leb d.heartbeat_due now)

pub due_reasons_none : (now : ℕ) (d : Deadlines) → (due_reasons now d == 0) ≡ not (any_due now d)
unfolding due_reasons
due_reasons_none now d =
    reasons_of_none (is_due now d.state_due) (is_due now d.retransmission_due)
      (is_due now d.acknowledgement_due) (leb d.heartbeat_due now)

-- The earliest deadline is one that is due when it comes, and none is due before.
earliest-due : (d : Deadlines) → any_due (earliest d) d ≡ true
unfolding earliest
earliest-due d = ground arith

earliest-not_due : (now : ℕ) (d : Deadlines) → any_due now d ≡ false → now < earliest d
unfolding earliest
earliest-not_due now d h = ground arith

earliest-before : (now : ℕ) (d : Deadlines) → now < earliest d → any_due now d ≡ false
unfolding earliest
earliest-before now d h = ground arith

pub due_later :
    (now later : ℕ) (d : Deadlines) → now ≤ later → any_due now d ≡ true → any_due later d ≡ true
due_later now later d le h = ground arith

-- The two answers of `decide`.
pub decide_due :
    (s : SendScheduler) (now : ℕ) (d : Deadlines)
    → any_due now d ≡ true
    → is_deferred now s.send_not_before_ms ≡ false
    → decide s now d
      ≡ send
          (record { generation = s.generation; planned_at_ms = now; reasons = due_reasons now d })
unfolding decide
decide_due s now d h n = ground (arith, due_reasons_none now d)

pub decide_waits :
    (s : SendScheduler) (now wake : ℕ) (d : Deadlines)
    → decide s now d ≡ pending wake
    → (now < wake) × (any_due wake d ≡ true)
unfolding decide
decide_waits s now wake d h =
    ground
      (arith, due_reasons_none now d, earliest-not_due now d, earliest-due d, due_later now wake d)

pub decide_until :
    (s : SendScheduler) (now at wake : ℕ) (d : Deadlines)
    → decide s now d ≡ pending wake
    → now ≤ at
    → at < wake
    → decide s at d ≡ pending wake
unfolding decide
decide_until s now at wake d h le lt = elim (Bool-cases (any_due now d)) [
  | inl due ↦
      ground
        (arith, h, due, due_reasons_none now d, due_reasons_none at d, due_later now at d le due)
  | inr idle ↦
      let w : wake ≡ earliest d = ground (arith, h, idle, due_reasons_none now d) in
      let none_yet = earliest-before at d (omega (arith, w)) in
      ground (arith, w, none_yet, due_reasons_none at d)
]

-- What an answer of `poll` rests on.
pub poll-decide :
    (now : ℕ) (timing : RttEstimator) (unacknowledged : Option ℕ) (s t : SendScheduler)
    (p : SchedulerPoll)
    → poll now timing unacknowledged s ≡ (t, ok p)
    → (t ≡ record s { last_observed_ms = now })
      × (s.last_observed_ms ≤ now)
      × ((d : Deadlines) × (deadlines t timing unacknowledged ≡ ok d) × (decide t now d ≡ p))
unfolding poll
poll-decide now timing unacknowledged s t p h =
    elim (Result-cases (deadlines (record s { last_observed_ms = now }) timing unacknowledged)) [
      | inl (d, e) ↦ (
        ground (arith, h, e),
        ground (arith, h, e),
        (d, ground (arith, h, e), ground (arith, h, e)),
      )
      | inr (x, e) ↦ absurd (ground (arith, h, e))
    ]
