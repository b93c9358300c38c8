-- ===== src/Synchronization/Sender.antt =====
-- synchronization.rs: the sending half. `advance_local`, `plan_send`, `commit_send` and
-- `observe_acknowledgement`.
use mosh_client_rs.Prelude.{
  ℕ, Bool, not, ◌&&◌, ◌||◌, Option, none, some, List, [], ◌∷◌, ◌++◌, reverse, Result, ok, err, M,
  ◌>>=◌, ◌>>◌, pure, lift, get, modify, ok_or, reject_if, try, checked_add, checked_sub, ltb, leb,
  ◌==◌, if◌then◌else◌, length, retain, any,
}
use mosh_client_rs.Limits.{
  min_retransmission_timeout_ms, max_retransmission_timeout_ms, max_sent_states_after_ack,
}
use mosh_client_rs.Synchronization.State.{
  SynchronizationState, SynchronizationError, state_number_exhausted,
  invalid_retransmission_timeout, time_moved_backwards, no_new_state, stale_plan,
  generation_exhausted, AcknowledgementDisposition, advanced, current, stale, unknown, SendPlan,
  SendCommit, SentState,
}

unfoldable pub advance_local : M SynchronizationState SynchronizationError ℕ
advance_local = do
  s ← get
  next_state ← lift (ok_or (checked_add s.local_latest 1) state_number_exhausted)
  next_generation ← lift (ok_or (checked_add s.sender_generation 1) generation_exhausted)
  modify (λ t. record t { local_latest = next_state; sender_generation = next_generation })
  pure next_state

-- The loop of `plan_send`, over the sent states from the newest to the oldest.
unfoldable pub choose_base : (now rto known : ℕ) → List SentState → Result SynchronizationError ℕ
choose_base now rto known [] = ok known
choose_base now rto known (sent ∷ older) =
    let rest = choose_base now rto known older in
    try (ok_or (checked_sub now sent.sent_at_ms) time_moved_backwards)
      (λ elapsed. if ltb elapsed rto then ok sent.number else rest)

-- The end of `plan_send`, at the base that the loop chose.
unfoldable pub plan_from :
    SynchronizationState → (now base : ℕ) → Result SynchronizationError SendPlan
plan_from s now base =
    if leb s.local_latest base
    then err no_new_state
    else ok (record {
      generation = s.sender_generation;
      base_state = base;
      target_state = s.local_latest;
      acknowledged_state = s.remote_latest;
      throwaway_state = s.known_receiver_state;
      planned_at_ms = now;
    })

unfoldable pub plan_send :
    SynchronizationState → (now rto : ℕ) → Result SynchronizationError SendPlan
plan_send s now rto =
    if leb min_retransmission_timeout_ms rto && leb rto max_retransmission_timeout_ms
    then try (choose_base now rto s.known_receiver_state (reverse s.sent_states))
        (λ base. plan_from s now base)
    else err invalid_retransmission_timeout

-- `find` on `iter_mut` and the assignment: the first entry with the number gets the new time.
unfoldable pub touch : (number at_ms : ℕ) → List SentState → List SentState
touch number at_ms [] = []
touch number at_ms (x ∷ xs) =
    if x.number == number then record x { sent_at_ms = at_ms } ∷ xs else x ∷ touch number at_ms xs

abbrev pub front_number : List SentState → Option ℕ
front_number [] = none
front_number (x ∷ xs) = some x.number

abbrev pub pop_front : List SentState → List SentState
pop_front [] = []
pop_front (x ∷ xs) = xs

abbrev pub is_sent : ℕ → List SentState → Bool
is_sent number = any (λ x. x.number == number)

-- The sent states after a commit, and the number that the capacity pushed out.
unfoldable pub record_sent : ℕ → SendPlan → List SentState → List SentState × Option ℕ
record_sent known plan sent =
    if leb plan.target_state known
    then (sent, none)
    else if is_sent plan.target_state sent
    then (touch plan.target_state plan.planned_at_ms sent, none)
    else let entry : SentState = record {
      number = plan.target_state;
      sent_at_ms = plan.planned_at_ms;
    } in
      if length sent == max_sent_states_after_ack
      then (pop_front sent ++ entry ∷ [], front_number sent)
      else (sent ++ entry ∷ [], none)

unfoldable pub is_stale_send : SynchronizationState → SendPlan → Bool
is_stale_send s plan =
    not (plan.generation == s.sender_generation)
    || not (plan.target_state == s.local_latest)
    || not (plan.acknowledged_state == s.remote_latest)
    || not (plan.throwaway_state == s.known_receiver_state)

unfoldable pub commit_send : SendPlan → M SynchronizationState SynchronizationError SendCommit
commit_send plan = do
  s ← get
  reject_if (is_stale_send s plan) stale_plan
  next_generation ← lift (ok_or (checked_add s.sender_generation 1) generation_exhausted)
  let (sent, evicted) = record_sent s.known_receiver_state plan s.sent_states
  modify (λ t. record t { sent_states = sent; sender_generation = next_generation })
  pure (record { capacity_evicted_state = evicted })

unfoldable pub observe_acknowledgement :
    ℕ → M SynchronizationState SynchronizationError AcknowledgementDisposition
observe_acknowledgement acknowledgement s =
    if ltb acknowledgement s.known_receiver_state
    then pure stale s
    else if acknowledgement == s.known_receiver_state
    then pure current s
    else if is_sent acknowledgement s.sent_states
    then (do
      next_generation ← lift (ok_or (checked_add s.sender_generation 1) generation_exhausted)
      modify (λ t. record t {
        known_receiver_state = acknowledgement;
        sent_states = retain (λ x. ltb acknowledgement x.number) t.sent_states;
        sender_generation = next_generation;
      })
      pure (advanced s.known_receiver_state acknowledgement))
        s
    else pure unknown s
