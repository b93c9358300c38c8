-- ===== src/Synchronization/State.antt =====
-- synchronization.rs: the data of the SSP synchronization state. A `VecDeque` is a list, its front
-- first; a `u64` is a number, with `checked_add` where the source has it.
use mosh_client_rs.Prelude.{ℕ, Bool, Option, none, some, List, [], ◌∷◌, find, ◌==◌}
use mosh_client_rs.Instruction.{TransportInstruction, protocol_version}

pub data SynchronizationError : Type 0 where
  state_number_exhausted : SynchronizationError
  invalid_acknowledgement : SynchronizationError
  incompatible_version : SynchronizationError
  invalid_state_transition : SynchronizationError
  invalid_throwaway : SynchronizationError
  invalid_retransmission_timeout : SynchronizationError
  time_moved_backwards : SynchronizationError
  no_new_state : SynchronizationError
  stale_plan : SynchronizationError
  generation_exhausted : SynchronizationError

pub data AcknowledgementDisposition : Type 0 where
  advanced : (from to : ℕ) → AcknowledgementDisposition
  current stale unknown : AcknowledgementDisposition

pub record SendPlan : Type 0 where
  pub generation : ℕ
  pub base_state : ℕ
  pub target_state : ℕ
  pub acknowledged_state : ℕ
  pub throwaway_state : ℕ
  pub planned_at_ms : ℕ

pub record SendCommit : Type 0 where
  pub capacity_evicted_state : Option ℕ

unfoldable pub instruction : SendPlan → List ℕ → List ℕ → TransportInstruction
instruction plan difference chaff = record {
  version = protocol_version;
  base_state = plan.base_state;
  new_state = plan.target_state;
  acknowledged_state = plan.acknowledged_state;
  discard_before_state = plan.throwaway_state;
  state_difference = difference;
  chaff = chaff;
}

pub record ApplyPlan : Type 0 where
  pub generation : ℕ
  pub base_state : ℕ
  pub target_state : ℕ
  pub throwaway_state : ℕ
  pub difference : List ℕ
  pub becomes_latest : Bool

pub data RemoteStateDisposition : Type 0 where
  apply : ApplyPlan → RemoteStateDisposition
  already_constructed : RemoteStateDisposition
  missing_reference : RemoteStateDisposition
  below_throwaway_floor : RemoteStateDisposition
  below_retention_window : RemoteStateDisposition

pub record ReceiveTransition : Type 0 where
  pub acknowledgement : AcknowledgementDisposition
  pub remote_state : RemoteStateDisposition

pub record ShutdownTransition : Type 0 where
  pub base_state : ℕ
  pub difference : List ℕ

pub record ReceiveCommit : Type 0 where
  pub discard_before_state : ℕ
  pub capacity_evicted_state : Option ℕ

pub record SentState : Type 0 where
  pub number : ℕ
  pub sent_at_ms : ℕ

pub record SynchronizationState : Type 0 where
  pub local_latest : ℕ
  pub known_receiver_state : ℕ
  pub sent_states : List SentState
  pub sender_generation : ℕ
  pub remote_latest : ℕ
  pub remote_throwaway_floor : ℕ
  pub received_states : List ℕ
  pub receiver_generation : ℕ

abbrev pub new : SynchronizationState
new = record {
  local_latest = 0;
  known_receiver_state = 0;
  sent_states = [];
  sender_generation = 0;
  remote_latest = 0;
  remote_throwaway_floor = 0;
  received_states = 0 ∷ [];
  receiver_generation = 0;
}

-- `sent_states.back()`.
abbrev last_sent_at : List SentState → Option ℕ
last_sent_at [] = none
last_sent_at (x ∷ []) = some x.sent_at_ms
last_sent_at (x ∷ y ∷ ys) = last_sent_at (y ∷ ys)

unfoldable pub latest_unacknowledged_sent_at_ms : SynchronizationState → Option ℕ
latest_unacknowledged_sent_at_ms s = last_sent_at s.sent_states

abbrev sent_at : Option SentState → Option ℕ
sent_at none = none
sent_at (some x) = some x.sent_at_ms

unfoldable pub sent_state_sent_at_ms : SynchronizationState → ℕ → Option ℕ
sent_state_sent_at_ms s number = sent_at (find (λ x. x.number == number) s.sent_states)
