-- ===== src/Synchronization/Progress.antt =====
-- What a call of the synchronization state may change: acknowledged, latest and floor numbers never
-- move backwards.
use mosh_client_rs.Prelude.{ℕ, ◌≤◌, List, subst, arith}
use mosh_client_rs.Instruction.{TransportInstruction}
use mosh_client_rs.Synchronization.State.{SynchronizationState, ApplyPlan}
use mosh_client_rs.Synchronization.Sender.{advance_local, observe_acknowledgement, commit_send}
use mosh_client_rs.Synchronization.Receiver.{
  begin_receive, begin_shutdown_receive, commit_receive, validate_instruction, store, promote,
  evict,
}
use mosh_client_rs.Synchronization.Invariant.{IsIssued}
use mosh_client_rs.Synchronization.Steps.{
  Step, advance, send, receive, shut_down, Reach, here, next, issue, deliver, commit_of_held,
  IsHeld-at,
}

pub record IsLater (s t : SynchronizationState) : Type 0 where
  pub local_le : s.local_latest ≤ t.local_latest
  pub known_le : s.known_receiver_state ≤ t.known_receiver_state
  pub latest_le : s.remote_latest ≤ t.remote_latest
  pub floor_le : s.remote_throwaway_floor ≤ t.remote_throwaway_floor

IsLater-trans : {s t u : SynchronizationState} → IsLater s t → IsLater t u → IsLater s u
IsLater-trans p q = omega arith

observe_acknowledgement-IsLater :
    (a : ℕ) (s : SynchronizationState) → IsLater s (observe_acknowledgement a s).0
unfolding observe_acknowledgement
observe_acknowledgement-IsLater a s = ground arith

begin_receive-IsLater :
    (i : TransportInstruction) (s : SynchronizationState) → IsLater s (begin_receive i s).0
unfolding begin_receive validate_instruction
begin_receive-IsLater i s = ground (arith, observe_acknowledgement-IsLater i.acknowledged_state s)

commit_receive-IsLater :
    (plan : ApplyPlan) (s : SynchronizationState)
    → IsIssued plan s
    → IsLater s (commit_receive plan s).0
unfolding commit_receive store promote evict
commit_receive-IsLater plan s g = ground (arith, g.latest_test)

Step-IsLater : {s t : SynchronizationState} → Step s t → IsLater s t
unfolding advance_local commit_send begin_shutdown_receive
Step-IsLater {s} advance = ground arith
Step-IsLater {s} (send plan) = ground arith
Step-IsLater {s} (receive i) = begin_receive-IsLater i s
Step-IsLater {s} (shut_down i) =
    ground (arith, observe_acknowledgement-IsLater i.acknowledged_state s)

-- Over any sequence of calls, where a plan of `begin_receive` may be committed at any later time, the
-- latest local state, the acknowledged state, the latest remote state and the throwaway floor never
-- move backwards.
pub Reach-IsLater :
    (s t : SynchronizationState) (plans : List ApplyPlan) → Reach s plans t → IsLater s t
Reach-IsLater s t plans here = omega arith
Reach-IsLater s t plans (next {t = m} r st) =
    IsLater-trans (Reach-IsLater s m plans r) (Step-IsLater st)
Reach-IsLater s t _ (issue {t = m} {plans} r i a e) =
    IsLater-trans (Reach-IsLater s m plans r)
      (subst (λ x. IsLater m x.0) e (begin_receive-IsLater i m))
Reach-IsLater s _ plans (deliver {t = m} {plan} r place e) =
    IsLater-trans (Reach-IsLater s m plans r) (
      commit_of_held (IsLater m) plan m (IsHeld-at plan place r e) (omega arith)
        (λ b. commit_receive-IsLater plan m b))
