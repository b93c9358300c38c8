-- ===== src/Synchronization/Halves.antt =====
-- The half of the synchronization state that a call leaves as it was.
use mosh_client_rs.Prelude.{ℕ, ◌≡◌, arith}
use mosh_client_rs.Instruction.{TransportInstruction}
use mosh_client_rs.Synchronization.State.{SynchronizationState, SendPlan, ApplyPlan}
use mosh_client_rs.Synchronization.Sender.{advance_local, observe_acknowledgement, commit_send}
use mosh_client_rs.Synchronization.Receiver.{
  begin_receive, begin_shutdown_receive, commit_receive, validate_instruction, store, promote,
  evict,
}
use mosh_client_rs.Synchronization.Invariant.{IsSender, IsReceiver}

-- The receiving half of two states agrees.
pub record SameReceiver (s t : SynchronizationState) : Type 0 where
  pub same_latest : t.remote_latest ≡ s.remote_latest
  pub same_floor : t.remote_throwaway_floor ≡ s.remote_throwaway_floor
  pub same_received : t.received_states ≡ s.received_states
  pub same_generation : t.receiver_generation ≡ s.receiver_generation

pub record SameSender (s t : SynchronizationState) : Type 0 where
  pub same_local : t.local_latest ≡ s.local_latest
  pub same_known : t.known_receiver_state ≡ s.known_receiver_state
  pub same_sent : t.sent_states ≡ s.sent_states
  pub same_sender : t.sender_generation ≡ s.sender_generation

pub SameReceiver-IsReceiver :
    (s t : SynchronizationState) → SameReceiver s t → IsReceiver s → IsReceiver t
SameReceiver-IsReceiver s t e v = ground (
  arith, e.same_latest, e.same_floor, e.same_received, v.received_ordered, v.received_bounded,
  v.latest_kept,
)

pub SameSender-IsSender : (s t : SynchronizationState) → SameSender s t → IsSender s → IsSender t
SameSender-IsSender s t e v = ground (
  arith, e.same_local, e.same_known, e.same_sent, v.known_le, v.local_fits, v.sent_ordered,
  v.sent_bounded,
)

pub advance_local-SameReceiver : (s : SynchronizationState) → SameReceiver s (advance_local s).0
unfolding advance_local
advance_local-SameReceiver s = ground arith

pub commit_send-SameReceiver :
    (plan : SendPlan) (s : SynchronizationState) → SameReceiver s (commit_send plan s).0
unfolding commit_send
commit_send-SameReceiver plan s = ground arith

pub observe_acknowledgement-SameReceiver :
    (a : ℕ) (s : SynchronizationState) → SameReceiver s (observe_acknowledgement a s).0
unfolding observe_acknowledgement
observe_acknowledgement-SameReceiver a s = ground arith

pub begin_receive-SameReceiver :
    (i : TransportInstruction) (s : SynchronizationState) → SameReceiver s (begin_receive i s).0
unfolding begin_receive validate_instruction
begin_receive-SameReceiver i s =
    ground (arith, observe_acknowledgement-SameReceiver i.acknowledged_state s)

pub begin_shutdown_receive-SameReceiver :
    (i : TransportInstruction) (s : SynchronizationState)
    → SameReceiver s (begin_shutdown_receive i s).0
unfolding begin_shutdown_receive
begin_shutdown_receive-SameReceiver i s =
    ground (arith, observe_acknowledgement-SameReceiver i.acknowledged_state s)

pub commit_receive-SameSender :
    (plan : ApplyPlan) (s : SynchronizationState) → SameSender s (commit_receive plan s).0
unfolding commit_receive store promote evict
commit_receive-SameSender plan s = ground arith
