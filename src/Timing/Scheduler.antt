-- ===== src/Timing/Scheduler.antt =====
-- timing.rs: `SendScheduler`, which says when and why an instruction is due. It runs no clock.
use Prim.Native.Nat.{bit_and, bit_or}
use mosh_client_rs.Prelude.{
  ℕ, min, max, Bool, true, false, not, ◌||◌, Option, none, some, Unit0, M, Result, ok, ◌>>=◌, ◌>>◌,
  get, modify, pure, lift, ok_or, try, reject_if, checked_add, ltb, leb, ◌==◌, if◌then◌else◌,
}
use mosh_client_rs.Limits.{
  heartbeat_interval_ms, max_acknowledgement_delay_ms, state_change_collection_ms,
}
use mosh_client_rs.Timing.Rtt.{
  RttEstimator, frame_interval_ms, TimingError, time_moved_backwards, timer_exhausted, stale_plan,
  generation_exhausted,
}

-- `SendReasons`: the bits of a `u8`.
abbrev pub state_change : ℕ
state_change = 1

abbrev pub retransmission : ℕ
retransmission = 2

abbrev pub acknowledgement : ℕ
acknowledgement = 4

abbrev pub heartbeat : ℕ
heartbeat = 8

unfoldable pub contains_reason : (reasons reason : ℕ) → Bool
contains_reason reasons reason = not (bit_and reasons reason == 0)

abbrev pub insert_if : Bool → (reason reasons : ℕ) → ℕ
insert_if due reason reasons = if due then bit_or reasons reason else reasons

pub record WakePlan : Type 0 where
  pub generation : ℕ
  pub planned_at_ms : ℕ
  pub reasons : ℕ

pub data SchedulerPoll : Type 0 where
  pending : (wake_at_ms : ℕ) → SchedulerPoll
  send : WakePlan → SchedulerPoll

pub record SendScheduler : Type 0 where
  pub started_at_ms : ℕ
  pub last_observed_ms : ℕ
  pub last_send_ms : Option ℕ
  pub local_change_at_ms : Option ℕ
  pub acknowledgement_at_ms : Option ℕ
  pub send_not_before_ms : Option ℕ
  pub generation : ℕ

abbrev pub new_scheduler : ℕ → SendScheduler
new_scheduler started_at_ms = record {
  started_at_ms = started_at_ms;
  last_observed_ms = started_at_ms;
  last_send_ms = none;
  local_change_at_ms = none;
  acknowledgement_at_ms = none;
  send_not_before_ms = none;
  generation = 0;
}

unfoldable pub observe_time : ℕ → M SendScheduler TimingError Unit0
observe_time now = do
  s ← get
  reject_if (ltb now s.last_observed_ms) time_moved_backwards
  modify (λ t. record t { last_observed_ms = now })

unfoldable pub next_generation : SendScheduler → Result TimingError ℕ
next_generation s = ok_or (checked_add s.generation 1) generation_exhausted

unfoldable pub checked_deadline : (start_ms delay_ms : ℕ) → Result TimingError ℕ
checked_deadline start_ms delay_ms = ok_or (checked_add start_ms delay_ms) timer_exhausted

abbrev is_none : Option ℕ → Bool
is_none none = true
is_none (some x) = false

unfoldable pub note_local_change : ℕ → M SendScheduler TimingError Unit0
unfolding observe_time next_generation
note_local_change now = do
  observe_time now
  s ← get
  (if is_none s.local_change_at_ms
      then (do
        generation ← lift (next_generation s)
        modify (λ t. record t { local_change_at_ms = some now; generation = generation }))
      else pure tt)

unfoldable pub note_acknowledgement_needed : ℕ → M SendScheduler TimingError Unit0
unfolding observe_time next_generation
note_acknowledgement_needed now = do
  observe_time now
  s ← get
  (if is_none s.acknowledgement_at_ms
      then (do
        generation ← lift (next_generation s)
        modify (λ t. record t { acknowledgement_at_ms = some now; generation = generation }))
      else pure tt)

-- `map(checked_deadline).transpose()`.
unfoldable pub deadline_of : Option ℕ → ℕ → Result TimingError (Option ℕ)
unfolding checked_deadline
deadline_of none delay = ok none
deadline_of (some start) delay = try (checked_deadline start delay) λ d. ok (some d)

abbrev or_else : Option ℕ → ℕ → ℕ
or_else none d = d
or_else (some x) d = x

unfoldable pub local_change_due : SendScheduler → ℕ → Result TimingError (Option ℕ)
unfolding deadline_of checked_deadline
local_change_due s frame_interval = elim s.local_change_at_ms [
  | none ↦ ok none
  | some changed_at ↦ try (checked_deadline changed_at state_change_collection_ms) λ collection_due.
      try (deadline_of s.last_send_ms frame_interval)
        λ frame_due. ok (some (max collection_due (or_else frame_due collection_due)))
]

-- The four deadlines that `poll` computes; the heartbeat always has one.
pub record Deadlines : Type 0 where
  pub state_due : Option ℕ
  pub acknowledgement_due : Option ℕ
  pub retransmission_due : Option ℕ
  pub heartbeat_due : ℕ

unfoldable pub deadlines : SendScheduler → RttEstimator → Option ℕ → Result TimingError Deadlines
unfolding local_change_due
deadlines s timing unacknowledged = try (local_change_due s (frame_interval_ms timing)) λ state_due.
    try (deadline_of s.acknowledgement_at_ms max_acknowledgement_delay_ms) λ acknowledgement_due.
      try (deadline_of unacknowledged timing.retransmission_timeout_ms) λ retransmission_due.
        try (checked_deadline (or_else s.last_send_ms s.started_at_ms) heartbeat_interval_ms)
          λ heartbeat_due. ok (record {
            state_due = state_due;
            acknowledgement_due = acknowledgement_due;
            retransmission_due = retransmission_due;
            heartbeat_due = heartbeat_due;
          })

abbrev pub is_due : ℕ → Option ℕ → Bool
is_due now none = false
is_due now (some deadline) = leb deadline now

unfoldable pub due_reasons : ℕ → Deadlines → ℕ
due_reasons now d = insert_if (leb d.heartbeat_due now) heartbeat (
    insert_if (is_due now d.acknowledgement_due) acknowledgement (
      insert_if (is_due now d.retransmission_due) retransmission
        (insert_if (is_due now d.state_due) state_change 0)))

abbrev pub min_with : Option ℕ → ℕ → ℕ
min_with none d = d
min_with (some x) d = min x d

-- The least of the four deadlines.
unfoldable pub earliest : Deadlines → ℕ
earliest d =
    min_with d.state_due
      (min_with d.acknowledgement_due (min_with d.retransmission_due d.heartbeat_due))

abbrev pub is_deferred : ℕ → Option ℕ → Bool
is_deferred now none = false
is_deferred now (some not_before) = ltb now not_before

-- The end of `poll`, at the deadlines.
unfoldable pub decide : SendScheduler → ℕ → Deadlines → SchedulerPoll
decide s now d =
    if due_reasons now d == 0
    then pending (earliest d)
    else if is_deferred now s.send_not_before_ms
    then pending (or_else s.send_not_before_ms now)
    else send
        (record { generation = s.generation; planned_at_ms = now; reasons = due_reasons now d })

abbrev is_after : ℕ → Option ℕ → Bool
is_after now none = false
is_after now (some sent_at) = ltb now sent_at

unfoldable pub poll : ℕ → RttEstimator → Option ℕ → M SendScheduler TimingError SchedulerPoll
unfolding observe_time
poll now timing unacknowledged = do
  observe_time now
  reject_if (is_after now unacknowledged) time_moved_backwards
  s ← get
  d ← lift (deadlines s timing unacknowledged)
  pure (decide s now d)

unfoldable pub commit_send : WakePlan → M SendScheduler TimingError Unit0
unfolding next_generation
commit_send plan = do
  s ← get
  reject_if
      (not (plan.generation == s.generation) || not (plan.planned_at_ms == s.last_observed_ms))
      stale_plan
  generation ← lift (next_generation s)
  modify (λ t. record t {
    local_change_at_ms = none;
    acknowledgement_at_ms = none;
    send_not_before_ms = none;
    last_send_ms = some plan.planned_at_ms;
    generation = generation;
  })

unfoldable pub defer_send : (now delay_ms : ℕ) → M SendScheduler TimingError Unit0
unfolding observe_time checked_deadline
defer_send now delay_ms = do
  not_before ← lift (checked_deadline now delay_ms)
  observe_time now
  modify (λ t. record t { send_not_before_ms = some not_before })
