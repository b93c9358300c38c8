-- ===== src/Synchronization/Delivery.antt =====
-- The delivery of a remote state: what is stored, what is kept, and that it is stored once.
use mosh_client_rs.Prelude.{◌<◌, ◌≡◌, arith, ok, true, false, max, if◌then◌else◌, ltb, u64_max}
use mosh_client_rs.Instruction.{TransportInstruction}
use mosh_client_rs.Synchronization.State.{
  SynchronizationState, ApplyPlan, AcknowledgementDisposition, apply,
}
use mosh_client_rs.Synchronization.Receiver.{
  begin_receive, commit_receive, validate_instruction, remote_disposition, is_stale_apply, store,
  promote, evict, contains, can_retain_received_state,
}
use mosh_client_rs.Synchronization.Invariant.{IsReceiver, store-IsReceiver}
use mosh_client_rs.Synchronization.Steps.{begin_receive-IsIssued}

-- A plan of `begin_receive` is the instruction's, its base is held and its target is not.
pub record IsFresh (i : TransportInstruction) (plan : ApplyPlan) (t : SynchronizationState)
    : Type 0 where
  pub from_base : plan.base_state ≡ i.base_state
  pub to_new : plan.target_state ≡ i.new_state
  pub throws : plan.throwaway_state ≡ i.discard_before_state
  pub carries : plan.difference ≡ i.state_difference
  pub now_generation : plan.generation ≡ t.receiver_generation
  pub base_held : contains t.received_states plan.base_state ≡ true
  pub target_new : contains t.received_states plan.target_state ≡ false
  pub room : can_retain_received_state t plan.target_state ≡ true

pub begin_receive-IsFresh :
    (i : TransportInstruction) (s t : SynchronizationState) (a : AcknowledgementDisposition)
    (plan : ApplyPlan)
    → begin_receive i s ≡ (t, ok (record { acknowledgement = a; remote_state = apply plan }))
    → IsFresh i plan t
unfolding begin_receive validate_instruction remote_disposition
begin_receive-IsFresh i s t a plan e = ground arith

-- The plan of a `begin_receive` is accepted by `commit_receive`, unless the generation counter is
-- exhausted; then the target is the latest remote state or the latest stays, as the numbers say,
-- and the target is held.
pub begin_receive-commit_receive :
    (i : TransportInstruction) (s t : SynchronizationState) (a : AcknowledgementDisposition)
    (plan : ApplyPlan)
    → IsReceiver t
    → t.receiver_generation < u64_max
    → begin_receive i s ≡ (t, ok (record { acknowledgement = a; remote_state = apply plan }))
    → let u = commit_receive plan t in
      (u.1
        ≡ ok (record {
          discard_before_state = u.0.remote_throwaway_floor;
          capacity_evicted_state = (store plan t).1;
        }))
      × (contains u.0.received_states i.new_state ≡ true)
      × (u.0.remote_latest ≡ max t.remote_latest i.new_state)
      × (u.0.remote_throwaway_floor ≡ (
          if ltb t.remote_latest i.new_state
          then max t.remote_throwaway_floor i.discard_before_state
          else t.remote_throwaway_floor))
unfolding commit_receive is_stale_apply
begin_receive-commit_receive i s t a plan v fits e =
    let f = begin_receive-IsFresh i s t a plan e in
    let g = begin_receive-IsIssued i s t a plan e in
    ground (
      arith,
      f.now_generation,
      f.base_held,
      f.target_new,
      f.to_new,
      f.throws,
      g.latest_test,
      store-IsReceiver plan t v g,
      store-latest plan t,
      store-floor plan t,
    )
  where
    store-latest :
        (plan : ApplyPlan) (t : SynchronizationState)
        → (store plan t).0.remote_latest
          ≡ (if plan.becomes_latest then plan.target_state else t.remote_latest)
    store-latest plan t = unfold store promote evict in ground arith

    store-floor :
        (plan : ApplyPlan) (t : SynchronizationState)
        → (store plan t).0.remote_throwaway_floor ≡ (
            if plan.becomes_latest
            then max t.remote_throwaway_floor plan.throwaway_state
            else t.remote_throwaway_floor)
    store-floor plan t = unfold store promote evict in ground arith
