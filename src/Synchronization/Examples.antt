-- ===== src/Synchronization/Examples.antt =====
-- Runs of the synchronization state, and the theorems at concrete inputs.
use mosh_client_rs.Prelude.{◌<◌}
use mosh_client_rs.Prelude.{
  ◌≤◌, ◌≡◌, refl, arith, ok, err, true, [], ◌∷◌, ◌⊎◌, none, max, ltb, if◌then◌else◌, reverse,
  if◌then◌else◌,
}
use mosh_client_rs.Limits.{min_retransmission_timeout_ms, max_retransmission_timeout_ms}
use mosh_client_rs.Instruction.{TransportInstruction}
use mosh_client_rs.Synchronization.State.{
  SynchronizationState, SendPlan, ApplyPlan, apply, already_constructed, advanced, current, new,
  no_new_state, invalid_retransmission_timeout,
}
use mosh_client_rs.Synchronization.Sender.{
  advance_local, plan_send, commit_send, observe_acknowledgement, choose_base, plan_from,
  is_stale_send, record_sent,
}
use mosh_client_rs.Synchronization.Receiver.{
  begin_receive, commit_receive, validate_instruction, remote_disposition,
  can_retain_received_state, store, promote, evict, insert_ordered, is_stale_apply, contains,
}
use mosh_client_rs.Synchronization.Invariant.{IsValid, IsSender, IsReceiver}
use mosh_client_rs.Synchronization.Steps.{
  advance, send, issue, deliver, Reach, here, next, reachable-IsValid,
}
use mosh_client_rs.Synchronization.Progress.{IsLater, Reach-IsLater}
use mosh_client_rs.Synchronization.Planning.{IsPlanned, IsBase, plan_send-IsBase, plan_send_total}
use mosh_client_rs.Synchronization.Acknowledgement.{commit_send-acknowledged}
use mosh_client_rs.Synchronization.Delivery.{begin_receive-commit_receive}
use mosh_client_rs.Synchronization.Contents.{
  store-contents, store-keeps_floor, redelivery_changes_nothing,
}

abbrev started : SynchronizationState
started = record new { local_latest = 1; sender_generation = 1 }

advance_local-new : advance_local new ≡ (started, ok 1)
unfolding advance_local
advance_local-new = refl

abbrev first_plan : SendPlan
first_plan = record {
  generation = 1;
  base_state = 0;
  target_state = 1;
  acknowledged_state = 0;
  throwaway_state = 0;
  planned_at_ms = 20;
}

plan_send-started : plan_send started 20 1000 ≡ ok first_plan
unfolding plan_send choose_base plan_from
plan_send-started = refl

abbrev sent : SynchronizationState
sent = record started {
  sent_states = record { number = 1; sent_at_ms = 20 } ∷ [];
  sender_generation = 2;
}

commit_send-started :
    commit_send first_plan started ≡ (sent, ok (record { capacity_evicted_state = none }))
unfolding commit_send is_stale_send record_sent
commit_send-started = refl

abbrev hello : TransportInstruction
hello = record {
  version = 2;
  base_state = 0;
  new_state = 1;
  acknowledged_state = 0;
  discard_before_state = 0;
  state_difference = 7 ∷ [];
  chaff = [];
}

abbrev hello_plan : ApplyPlan
hello_plan = record {
  generation = 0;
  base_state = 0;
  target_state = 1;
  throwaway_state = 0;
  difference = 7 ∷ [];
  becomes_latest = true;
}

begin_receive-hello :
    begin_receive hello sent
    ≡ (sent, ok (record { acknowledgement = current; remote_state = apply hello_plan }))
unfolding begin_receive validate_instruction observe_acknowledgement remote_disposition
    can_retain_received_state
begin_receive-hello = refl

abbrev greeted : SynchronizationState
greeted = record sent { remote_latest = 1; received_states = 0 ∷ 1 ∷ []; receiver_generation = 1 }

commit_receive-hello :
    commit_receive hello_plan sent
    ≡ (greeted, ok (record { discard_before_state = 0; capacity_evicted_state = none }))
unfolding commit_receive is_stale_apply store promote evict insert_ordered
commit_receive-hello = refl

sent-IsReceiver : IsReceiver sent
sent-IsReceiver = record {
  received_ordered = omega arith;
  received_bounded = omega arith;
  latest_kept = refl;
}

started-IsSender : IsSender started
started-IsSender = record {
  known_le = omega arith;
  local_fits = omega arith;
  sent_ordered = tt;
  sent_bounded = omega arith;
}

-- Two plans for the same instruction; the older one is committed first, the other one is stale then.
abbrev after_commits : SynchronizationState
after_commits = (commit_receive hello_plan (commit_receive hello_plan sent).0).0

path : Reach new (hello_plan ∷ hello_plan ∷ []) after_commits
unfolding advance_local commit_send is_stale_send record_sent
path =
    deliver
      (deliver
        (issue
          (issue (next (next here advance) (send first_plan)) hello current begin_receive-hello)
          hello current begin_receive-hello)
        1 refl)
      0 refl

reachable-IsValid_example : IsValid after_commits
reachable-IsValid_example = reachable-IsValid after_commits (hello_plan ∷ hello_plan ∷ []) path

Reach-IsLater_example : IsLater new after_commits
Reach-IsLater_example = Reach-IsLater new after_commits (hello_plan ∷ hello_plan ∷ []) path

plan_send-IsBase_example :
    IsPlanned started 20 first_plan × IsBase 20 1000 0 0 (reverse started.sent_states)
plan_send-IsBase_example = plan_send-IsBase started 20 1000 first_plan plan_send-started

plan_send_total_example :
    (((min_retransmission_timeout_ms ≤ 1000) × (1000 ≤ max_retransmission_timeout_ms))
      × (((plan : SendPlan) × (plan_send sent 30 1000 ≡ ok plan))
          ⊎ (plan_send sent 30 1000 ≡ err no_new_state)))
    ⊎ (((1000 < min_retransmission_timeout_ms) ⊎ (max_retransmission_timeout_ms < 1000))
        × (plan_send sent 30 1000 ≡ err invalid_retransmission_timeout))
plan_send_total_example = plan_send_total sent 30 1000 (omega arith)

commit_send-acknowledged_example :
    let t = (commit_send first_plan started).0 in
    let u = observe_acknowledgement 1 t in
    (u.1 ≡ ok (advanced 0 1)) × (u.0.known_receiver_state ≡ 1) × (u.0.sent_states ≡ [])
commit_send-acknowledged_example =
    commit_send-acknowledged started 20 1000 first_plan started-IsSender plan_send-started
      (omega arith) (omega arith)

begin_receive-commit_receive_example :
    let u = commit_receive hello_plan sent in
    (u.1
      ≡ ok (record {
        discard_before_state = u.0.remote_throwaway_floor;
        capacity_evicted_state = (store hello_plan sent).1;
      }))
    × (contains u.0.received_states 1 ≡ true)
    × (u.0.remote_latest ≡ max 0 1)
    × (u.0.remote_throwaway_floor ≡ (if ltb 0 1 then max 0 0 else 0))
begin_receive-commit_receive_example =
    begin_receive-commit_receive hello sent sent current hello_plan sent-IsReceiver (omega arith)
      begin_receive-hello

store-contents_example : contains (store hello_plan sent).0.received_states 0 ≡ true
unfolding store promote evict
store-contents_example = store-contents hello_plan sent 0 sent-IsReceiver

store-keeps_floor_example :
    contains
      (store hello_plan sent).0.received_states
      (store hello_plan sent).0.remote_throwaway_floor
    ≡ true
unfolding store promote evict
store-keeps_floor_example = store-keeps_floor hello_plan sent sent-IsReceiver refl

redelivery_changes_nothing_example : begin_receive hello (commit_receive hello_plan sent).0 ≡ (
  (commit_receive hello_plan sent).0,
  ok (record { acknowledgement = current; remote_state = already_constructed }),
)
redelivery_changes_nothing_example =
    redelivery_changes_nothing hello sent sent current hello_plan sent-IsReceiver (omega arith)
      begin_receive-hello
