-- ===== src/Synchronization/Receiver.antt =====
-- synchronization.rs: the receiving half. `begin_receive`, `begin_shutdown_receive` and
-- `commit_receive`.
use mosh_client_rs.Prelude.{
  ℕ, Bool, true, false, not, ◌||◌, Option, none, some, List, [], ◌∷◌, Unit0, M, ◌>>=◌, ◌>>◌, pure,
  lift, get, modify, ok_or, reject_if, checked_add, ltb, leb, ◌==◌, if◌then◌else◌, length,
  get_elem?, retain, any, remove_at, max,
}
use mosh_client_rs.Limits.{max_received_reference_states}
use mosh_client_rs.Instruction.{TransportInstruction, protocol_version, shutdown_state}
use mosh_client_rs.Synchronization.State.{
  SynchronizationState, SynchronizationError, generation_exhausted, incompatible_version,
  invalid_acknowledgement, invalid_state_transition, invalid_throwaway, stale_plan, ApplyPlan,
  RemoteStateDisposition, apply, already_constructed, missing_reference, below_throwaway_floor,
  below_retention_window, ReceiveTransition, ShutdownTransition, ReceiveCommit,
}
use mosh_client_rs.Synchronization.Sender.{observe_acknowledgement}

abbrev pub contains : List ℕ → ℕ → Bool
contains xs n = any (λ x. x == n) xs

unfoldable pub validate_instruction :
    TransportInstruction → M SynchronizationState SynchronizationError Unit0
validate_instruction i = do
  s ← get
  reject_if (not (i.version == protocol_version)) incompatible_version
  reject_if (ltb s.local_latest i.acknowledged_state) invalid_acknowledgement
  reject_if (leb i.new_state i.base_state) invalid_state_transition
  reject_if (ltb i.base_state i.discard_before_state) invalid_throwaway

abbrev front_is : ℕ → List ℕ → Bool
front_is floor [] = false
front_is floor (x ∷ xs) = x == floor

-- `usize::from(protected_floor)`: the place of the first state that capacity may evict.
unfoldable pub first_evictable : SynchronizationState → ℕ
first_evictable s = if front_is s.remote_throwaway_floor s.received_states then 1 else 0

abbrev above : ℕ → Option ℕ → Bool
above target none = false
above target (some number) = ltb number target

unfoldable pub can_retain_received_state : SynchronizationState → ℕ → Bool
can_retain_received_state s target =
    if ltb (length s.received_states) max_received_reference_states
    then true
    else above target (get_elem? s.received_states (first_evictable s))

unfoldable pub remote_disposition :
    SynchronizationState → TransportInstruction → RemoteStateDisposition
remote_disposition s i =
    if ltb i.new_state s.remote_throwaway_floor || ltb i.base_state s.remote_throwaway_floor
    then below_throwaway_floor
    else if contains s.received_states i.new_state
    then already_constructed
    else if not (contains s.received_states i.base_state)
    then missing_reference
    else if not (can_retain_received_state s i.new_state)
    then below_retention_window
    else apply (record {
      generation = s.receiver_generation;
      base_state = i.base_state;
      target_state = i.new_state;
      throwaway_state = i.discard_before_state;
      difference = i.state_difference;
      becomes_latest = ltb s.remote_latest i.new_state;
    })

unfoldable pub begin_receive :
    TransportInstruction → M SynchronizationState SynchronizationError ReceiveTransition
begin_receive i = do
  validate_instruction i
  acknowledgement ← observe_acknowledgement i.acknowledged_state
  s ← get
  pure (record { acknowledgement = acknowledgement; remote_state = remote_disposition s i })

unfoldable pub is_invalid_shutdown : SynchronizationState → TransportInstruction → Bool
is_invalid_shutdown s i =
    not (i.version == protocol_version)
    || not (i.new_state == shutdown_state)
    || ltb s.local_latest i.acknowledged_state
    || ltb i.base_state i.discard_before_state
    || ltb i.base_state s.remote_throwaway_floor
    || not (contains s.received_states i.base_state)

unfoldable pub begin_shutdown_receive :
    TransportInstruction → M SynchronizationState SynchronizationError ShutdownTransition
begin_shutdown_receive i = do
  s ← get
  reject_if (is_invalid_shutdown s i) invalid_state_transition
  _ ← observe_acknowledgement i.acknowledged_state
  pure (record { base_state = i.base_state; difference = i.state_difference })

-- The new state becomes the latest one: the floor rises, and what lies under it is dropped.
abbrev pub promote_to : (floor target : ℕ) → SynchronizationState → SynchronizationState
promote_to floor target s = record s {
  remote_latest = target;
  remote_throwaway_floor = floor;
  received_states = retain (λ number. leb floor number) s.received_states;
}

unfoldable pub promote : ApplyPlan → SynchronizationState → SynchronizationState
promote plan s =
    if plan.becomes_latest
    then promote_to (max s.remote_throwaway_floor plan.throwaway_state) plan.target_state s
    else s

-- A full store gives up its oldest state, but not the one at the floor.
unfoldable pub evict : SynchronizationState → SynchronizationState × Option ℕ
evict s =
    if length s.received_states == max_received_reference_states
    then (
      record s { received_states = remove_at (first_evictable s) s.received_states },
      get_elem? s.received_states (first_evictable s),
    )
    else (s, none)

-- `position` of the first larger number, or the length, and `insert` there.
unfoldable pub insert_ordered : ℕ → List ℕ → List ℕ
insert_ordered target [] = target ∷ []
insert_ordered target (x ∷ xs) =
    if ltb target x then target ∷ x ∷ xs else x ∷ insert_ordered target xs

unfoldable pub is_stale_apply : SynchronizationState → ApplyPlan → Bool
is_stale_apply s plan =
    not (plan.generation == s.receiver_generation)
    || not (contains s.received_states plan.base_state)
    || contains s.received_states plan.target_state

-- The state that a commit which is not refused leaves, before its generation is counted.
unfoldable pub store : ApplyPlan → SynchronizationState → SynchronizationState × Option ℕ
store plan s =
    let (t, evicted) = evict (promote plan s) in
    (record t { received_states = insert_ordered plan.target_state t.received_states }, evicted)

unfoldable pub commit_receive :
    ApplyPlan → M SynchronizationState SynchronizationError ReceiveCommit
commit_receive plan = do
  s ← get
  reject_if (is_stale_apply s plan) stale_plan
  next_generation ← lift (ok_or (checked_add s.receiver_generation 1) generation_exhausted)
  let (t, evicted) = store plan s
  modify (λ _. record t { receiver_generation = next_generation })
  pure
      (record { discard_before_state = t.remote_throwaway_floor; capacity_evicted_state = evicted })
