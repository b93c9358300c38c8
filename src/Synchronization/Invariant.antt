-- ===== src/Synchronization/Invariant.antt =====
-- The invariant of the synchronization state, and that each operation keeps it.
use mosh_client_rs.Prelude.{
  ℕ, suc, ◌+◌, ◌-◌, ◌≤◌, ◌<◌, max, ◌≡◌, refl, true, false, List, [], ◌∷◌, ◌++◌, arith, ltb, leb,
  ◌⊎◌, ap, length, retain, u64_max, length-append, length-retain-le,
}
use mosh_client_rs.Limits.{max_received_reference_states, max_sent_states_after_ack}
use mosh_client_rs.Synchronization.State.{SynchronizationState, SentState, SendPlan, ApplyPlan, new}
use mosh_client_rs.Synchronization.Sender.{
  advance_local, observe_acknowledgement, commit_send, record_sent, touch, is_sent, is_stale_send,
  pop_front,
}
use mosh_client_rs.Synchronization.Receiver.{
  commit_receive, contains, store, promote, evict, first_evictable, is_stale_apply,
}
use mosh_client_rs.Synchronization.Ordered.{
  Between, Between-weaken, Between-contains, Between-retain, Between-remove_at,
  Between-insert_ordered, length-remove_at, length-insert_ordered, contains-insert_ordered,
  contains-retain, contains-remove_at_absent, remove_at_keeps_top,
}

abbrev pub numbers : List SentState → List ℕ
numbers [] = []
numbers (x ∷ xs) = x.number ∷ numbers xs

pub record IsSender (s : SynchronizationState) : Type 0 where
  pub known_le : s.known_receiver_state ≤ s.local_latest
  pub local_fits : s.local_latest ≤ u64_max
  pub sent_ordered : Between (suc s.known_receiver_state) s.local_latest (numbers s.sent_states)
  pub sent_bounded : length s.sent_states ≤ max_sent_states_after_ack

pub record IsReceiver (s : SynchronizationState) : Type 0 where
  pub received_ordered : Between s.remote_throwaway_floor s.remote_latest s.received_states
  pub received_bounded : length s.received_states ≤ max_received_reference_states
  pub latest_kept : contains s.received_states s.remote_latest ≡ true

pub record IsValid (s : SynchronizationState) : Type 0 where
  pub sender : IsSender s
  pub receiver : IsReceiver s

pub new-IsValid : IsValid new
new-IsValid = record {
  sender = record {
    known_le = omega arith;
    local_fits = omega arith;
    sent_ordered = tt;
    sent_bounded = omega arith;
  };
  receiver = record {
    received_ordered = omega arith;
    received_bounded = omega arith;
    latest_kept = refl;
  };
}

pub advance_local-IsSender : (s : SynchronizationState) → IsSender s → IsSender (advance_local s).0
unfolding advance_local
advance_local-IsSender s v = ground (
  arith,
  Between-weaken (suc s.known_receiver_state) (suc s.known_receiver_state) s.local_latest
      (s.local_latest + 1) (numbers s.sent_states),
  v.known_le,
  v.sent_ordered,
  v.sent_bounded,
)

retain_low :
    (floor lo hi : ℕ) (xs : List SentState)
    → Between lo hi (numbers xs)
    → Between lo hi (numbers (retain (λ x. ltb floor x.number) xs))
retain_low floor lo hi [] b = tt
retain_low floor lo hi (x ∷ xs) b = ground (
  arith,
  retain_low floor (suc x.number) hi xs b.2,
  Between-weaken (suc x.number) lo hi hi (numbers (retain (λ y. ltb floor y.number) xs)),
)

retain-above :
    (floor lo hi : ℕ) (xs : List SentState)
    → Between lo hi (numbers xs)
    → Between (suc floor) hi (numbers (retain (λ x. ltb floor x.number) xs))
retain-above floor lo hi [] b = tt
retain-above floor lo hi (x ∷ xs) b =
    ground (
      arith,
      retain-above floor (suc x.number) hi xs b.2,
      retain_low floor (suc x.number) hi xs b.2,
    )

pub observe_acknowledgement-IsSender :
    (a : ℕ) (s : SynchronizationState)
    → IsSender s
    → a ≤ s.local_latest
    → IsSender (observe_acknowledgement a s).0
unfolding observe_acknowledgement
observe_acknowledgement-IsSender a s v h = ground (
  arith,
  retain-above a (suc s.known_receiver_state) s.local_latest s.sent_states,
  length-retain-le (λ (x : SentState). ltb a x.number) s.sent_states,
  v.known_le,
  v.sent_ordered,
  v.sent_bounded,
  v.local_fits,
)

numbers-touch : (n at_ms : ℕ) (xs : List SentState) → numbers (touch n at_ms xs) ≡ numbers xs
unfolding touch
numbers-touch n at_ms [] = refl
numbers-touch n at_ms (x ∷ xs) = ground (arith, numbers-touch n at_ms xs)

length-touch : (n at_ms : ℕ) (xs : List SentState) → length (touch n at_ms xs) ≡ length xs
unfolding touch
length-touch n at_ms [] = refl
length-touch n at_ms (x ∷ xs) = ground (arith, length-touch n at_ms xs)

numbers-append : (xs ys : List SentState) → numbers (xs ++ ys) ≡ numbers xs ++ numbers ys
numbers-append [] ys = refl
numbers-append (x ∷ xs) ys = ap (◌∷◌ x.number) (numbers-append xs ys)

-- Numbers below `t + 1` that do not name `t` lie below `t`, so `t` can follow them.
Between-snoc_new :
    (lo t : ℕ) (xs : List SentState) (entry : SentState)
    → Between lo t (numbers xs)
    → is_sent t xs ≡ false
    → entry.number ≡ t
    → lo ≤ t
    → Between lo t (numbers (xs ++ entry ∷ []))
Between-snoc_new lo t [] entry b c e h = omega arith
Between-snoc_new lo t (x ∷ xs) entry b c e h =
    ground (arith, Between-snoc_new (suc x.number) t xs entry b.2)

-- Pushing a new number, with the oldest one popped first where the list is full.
pop_front-ordered :
    (lo hi : ℕ) (xs : List SentState)
    → Between lo hi (numbers xs)
    → Between lo hi (numbers (pop_front xs))
pop_front-ordered lo hi [] b = tt
pop_front-ordered lo hi (x ∷ xs) b =
    Between-weaken (suc x.number) lo hi hi (numbers xs) (omega arith) (omega arith) b.2

is_sent-pop_front :
    (t : ℕ) (xs : List SentState) → is_sent t xs ≡ false → is_sent t (pop_front xs) ≡ false
is_sent-pop_front t [] h = refl
is_sent-pop_front t (x ∷ xs) h = ground arith

length-pop_front : (xs : List SentState) → length (pop_front xs) ≡ length xs - 1
length-pop_front [] = refl
length-pop_front (x ∷ xs) = omega arith

abbrev entry_of : SendPlan → SentState
entry_of plan = record { number = plan.target_state; sent_at_ms = plan.planned_at_ms }

pub record_sent-ordered :
    (known : ℕ) (plan : SendPlan) (xs : List SentState)
    → Between (suc known) plan.target_state (numbers xs)
    → length xs ≤ max_sent_states_after_ack
    → Between (suc known) plan.target_state (numbers (record_sent known plan xs).0)
      × (length (record_sent known plan xs).0 ≤ max_sent_states_after_ack)
unfolding record_sent
record_sent-ordered known plan xs b h = ground (
  arith,
  numbers-touch plan.target_state plan.planned_at_ms xs,
  length-touch plan.target_state plan.planned_at_ms xs,
  pop_front-ordered (suc known) plan.target_state xs b,
  is_sent-pop_front plan.target_state xs,
  length-pop_front xs,
  length-append (pop_front xs) (entry_of plan ∷ []),
  length-append xs (entry_of plan ∷ []),
  Between-snoc_new (suc known) plan.target_state xs (entry_of plan) b,
  Between-snoc_new (suc known) plan.target_state (pop_front xs) (entry_of plan),
)

pub commit_send-IsSender :
    (plan : SendPlan) (s : SynchronizationState) → IsSender s → IsSender (commit_send plan s).0
unfolding commit_send is_stale_send
commit_send-IsSender plan s v = ground (
  arith,
  record_sent-ordered s.known_receiver_state plan s.sent_states,
  v.known_le,
  v.sent_ordered,
  v.sent_bounded,
  v.local_fits,
)

-- What `begin_receive` promises of a plan until the receiving half changes again.
pub record IsIssued (plan : ApplyPlan) (s : SynchronizationState) : Type 0 where
  pub latest_test : plan.becomes_latest ≡ ltb s.remote_latest plan.target_state
  pub above_floor : s.remote_throwaway_floor ≤ plan.target_state
  pub base_above_floor : s.remote_throwaway_floor ≤ plan.base_state
  pub progresses : plan.base_state < plan.target_state
  pub keeps_base : plan.throwaway_state ≤ plan.base_state

-- The receiving half, but for the number of the latest state.
record IsPromoted (target : ℕ) (s : SynchronizationState) : Type 0 where
  p_ordered : Between s.remote_throwaway_floor s.remote_latest s.received_states
  p_bounded : length s.received_states ≤ max_received_reference_states
  p_target_le : target ≤ s.remote_latest
  p_floor_le : s.remote_throwaway_floor ≤ target
  p_new : contains s.received_states target ≡ false
  p_latest : (target ≡ s.remote_latest) ⊎ (contains s.received_states s.remote_latest ≡ true)

promote-IsPromoted :
    (plan : ApplyPlan) (s : SynchronizationState)
    → IsReceiver s
    → IsIssued plan s
    → contains s.received_states plan.target_state ≡ false
    → IsPromoted plan.target_state (promote plan s)
unfolding promote
promote-IsPromoted plan s v g fresh = ground (
  arith,
  v.received_ordered,
  v.received_bounded,
  v.latest_kept,
  g.latest_test,
  g.above_floor,
  g.progresses,
  g.keeps_base,
  Between-contains s.remote_throwaway_floor s.remote_latest s.remote_latest s.received_states,
  Between-retain (max s.remote_throwaway_floor plan.throwaway_state) s.remote_throwaway_floor
      s.remote_latest s.received_states,
  Between-weaken (max s.remote_throwaway_floor plan.throwaway_state)
      (max s.remote_throwaway_floor plan.throwaway_state) s.remote_latest plan.target_state
      (retain (λ n. leb (max s.remote_throwaway_floor plan.throwaway_state) n) s.received_states),
  contains-retain (max s.remote_throwaway_floor plan.throwaway_state) plan.target_state
      s.received_states,
  length-retain-le (λ n. leb (max s.remote_throwaway_floor plan.throwaway_state) n)
      s.received_states,
)

first_evictable-le : (s : SynchronizationState) → first_evictable s ≤ 1
unfolding first_evictable
first_evictable-le s = ground arith

evict-IsPromoted :
    (target : ℕ) (s : SynchronizationState)
    → IsPromoted target s
    → IsPromoted target (evict s).0
      × (suc (length (evict s).0.received_states) ≤ max_received_reference_states)
unfolding evict
evict-IsPromoted target s v = ground (
  arith,
  v.p_ordered,
  v.p_bounded,
  v.p_target_le,
  v.p_floor_le,
  v.p_new,
  v.p_latest,
  first_evictable-le s,
  Between-remove_at (first_evictable s) s.remote_throwaway_floor s.remote_latest s.received_states,
  length-remove_at (first_evictable s) s.received_states,
  contains-remove_at_absent (first_evictable s) target s.received_states,
  remove_at_keeps_top (first_evictable s) s.remote_throwaway_floor s.remote_latest
      s.received_states,
)

-- Storing an issued plan's target: the state becomes valid again, the target is kept.
pub store-IsReceiver :
    (plan : ApplyPlan) (s : SynchronizationState)
    → IsReceiver s
    → IsIssued plan s
    → contains s.received_states plan.target_state ≡ false
    → IsReceiver (store plan s).0
      × (contains (store plan s).0.received_states plan.target_state ≡ true)
unfolding store
store-IsReceiver plan s v g fresh =
    let t = (evict (promote plan s)).0 in
    let (p, room) =
      evict-IsPromoted plan.target_state (promote plan s) (promote-IsPromoted plan s v g fresh) in
    ground (
      arith,
      p.p_ordered,
      p.p_bounded,
      p.p_target_le,
      p.p_floor_le,
      p.p_new,
      p.p_latest,
      room,
      length-insert_ordered plan.target_state t.received_states,
      Between-insert_ordered plan.target_state t.remote_throwaway_floor t.remote_latest
          t.received_states,
      contains-insert_ordered plan.target_state t.remote_latest t.received_states,
      contains-insert_ordered plan.target_state plan.target_state t.received_states,
    )

pub commit_receive-IsReceiver :
    (plan : ApplyPlan) (s : SynchronizationState)
    → IsReceiver s
    → IsIssued plan s
    → IsReceiver (commit_receive plan s).0
unfolding commit_receive is_stale_apply
commit_receive-IsReceiver plan s v g =
    ground
      (arith, v.received_ordered, v.received_bounded, v.latest_kept, store-IsReceiver plan s v g)
