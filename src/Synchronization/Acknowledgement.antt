-- ===== src/Synchronization/Acknowledgement.antt =====
-- What an acknowledgement from the peer does.
use mosh_client_rs.Prelude.{
  ℕ, suc, ◌+◌, ◌<◌, ◌≡◌, refl, arith, ok, true, false, ◌⊎◌, u64_max, List, [], ◌∷◌, ◌++◌, retain,
  ltb,
}
use mosh_client_rs.Synchronization.State.{
  SynchronizationState, advanced, current, stale, unknown, SendPlan, SentState,
}
use mosh_client_rs.Synchronization.Sender.{
  observe_acknowledgement, commit_send, is_sent, is_stale_send, record_sent, touch, plan_send,
  pop_front,
}
use mosh_client_rs.Synchronization.Ordered.{Between}
use mosh_client_rs.Synchronization.Planning.{plan_send-IsBase}
use mosh_client_rs.Synchronization.Invariant.{IsSender, numbers, record_sent-ordered}

-- An acknowledgement advances exactly when it names a sent state above the acknowledged one and the
-- generation can be counted; then that state is the acknowledged one, and the sent states are those
-- above it. In every other case nothing changes.
observe_acknowledgement_cases :
    (a : ℕ) (s : SynchronizationState)
    → s.sender_generation < u64_max
    → ((observe_acknowledgement a s).1 ≡ ok (advanced s.known_receiver_state a))
        × (s.known_receiver_state < a)
        × (is_sent a s.sent_states ≡ true)
        × ((observe_acknowledgement a s).0 ≡ record s {
          known_receiver_state = a;
          sent_states = retain (λ x. ltb a x.number) s.sent_states;
          sender_generation = s.sender_generation + 1;
        })
      ⊎ ((observe_acknowledgement a s).0 ≡ s)
        × (((a < s.known_receiver_state) × ((observe_acknowledgement a s).1 ≡ ok stale))
            ⊎ ((a ≡ s.known_receiver_state) × ((observe_acknowledgement a s).1 ≡ ok current))
            ⊎ ((s.known_receiver_state < a)
                × (is_sent a s.sent_states ≡ false)
                × ((observe_acknowledgement a s).1 ≡ ok unknown)))
unfolding observe_acknowledgement
observe_acknowledgement_cases a s h = ground arith

retain-none :
    (a lo : ℕ) (xs : List SentState)
    → Between lo a (numbers xs)
    → retain (λ x. ltb a x.number) xs ≡ []
retain-none a lo [] b = refl
retain-none a lo (x ∷ xs) b = ground (arith, retain-none a (suc x.number) xs b.2)

is_sent-snoc : (e : SentState) (xs : List SentState) → is_sent e.number (xs ++ e ∷ []) ≡ true
is_sent-snoc e [] = ground arith
is_sent-snoc e (x ∷ xs) = ground (arith, is_sent-snoc e xs)

is_sent-touch : (n at_ms : ℕ) (xs : List SentState) → is_sent n (touch n at_ms xs) ≡ is_sent n xs
unfolding touch
is_sent-touch n at_ms [] = refl
is_sent-touch n at_ms (x ∷ xs) = ground (arith, is_sent-touch n at_ms xs)

abbrev entry_of : SendPlan → SentState
entry_of plan = record { number = plan.target_state; sent_at_ms = plan.planned_at_ms }

is_sent-record_sent :
    (known : ℕ) (plan : SendPlan) (xs : List SentState)
    → known < plan.target_state
    → is_sent plan.target_state (record_sent known plan xs).0 ≡ true
unfolding record_sent
is_sent-record_sent known plan xs h = ground (
  arith,
  is_sent-touch plan.target_state plan.planned_at_ms xs,
  is_sent-snoc (entry_of plan) xs,
  is_sent-snoc (entry_of plan) (pop_front xs),
)

-- After a plan is committed, the acknowledgement of its target is recognised and leaves nothing
-- unacknowledged.
pub commit_send-acknowledged :
    (s : SynchronizationState) (now rto : ℕ) (plan : SendPlan)
    → IsSender s
    → plan_send s now rto ≡ ok plan
    → s.known_receiver_state < s.local_latest
    → s.sender_generation + 1 < u64_max
    → let t = (commit_send plan s).0 in
      let u = observe_acknowledgement plan.target_state t in
      (u.1 ≡ ok (advanced s.known_receiver_state s.local_latest))
      × (u.0.known_receiver_state ≡ s.local_latest)
      × (u.0.sent_states ≡ [])
unfolding commit_send is_stale_send observe_acknowledgement
commit_send-acknowledged s now rto plan v h news fits =
    let (p, _) = plan_send-IsBase s now rto plan h in
    ground (
      arith,
      p.at_generation,
      p.to_latest,
      p.acknowledges,
      p.throws_away,
      is_sent-record_sent s.known_receiver_state plan s.sent_states,
      record_sent-ordered s.known_receiver_state plan s.sent_states,
      v.sent_ordered,
      v.sent_bounded,
      retain-none plan.target_state (suc s.known_receiver_state)
          (record_sent s.known_receiver_state plan s.sent_states).0,
    )
