-- ===== src/Synchronization/Contents.antt =====
-- Which remote states the receiving half holds after a commit: exactly which, and that the state at
-- the throwaway floor is never pushed out. A delivery that is repeated changes nothing.
use mosh_client_rs.Prelude.{
  ℕ, zero, suc, ◌≤◌, ◌<◌, ◌≡◌, refl, arith, ok, Bool, true, false, max, List, [], ◌∷◌, inl, inr,
  none, some, Option, if◌then◌else◌, leb, ◌==◌, u64_max, get_elem?, remove_at, Bool-cases,
}
use mosh_client_rs.Instruction.{TransportInstruction}
use mosh_client_rs.Synchronization.State.{
  SynchronizationState, ApplyPlan, AcknowledgementDisposition, advanced, current, stale, unknown,
  apply, already_constructed,
}
use mosh_client_rs.Synchronization.Sender.{observe_acknowledgement}
use mosh_client_rs.Synchronization.Receiver.{
  begin_receive, commit_receive, validate_instruction, remote_disposition, store, promote, evict,
  contains, first_evictable,
}
use mosh_client_rs.Synchronization.Ordered.{
  Between, Between-retain, contains-insert_ordered, contains-retain,
}
use mosh_client_rs.Synchronization.Invariant.{IsReceiver}
use mosh_client_rs.Synchronization.Steps.{begin_receive-IsIssued}
use mosh_client_rs.Synchronization.Halves.{commit_receive-SameSender}
use mosh_client_rs.Synchronization.Delivery.{begin_receive-IsFresh, begin_receive-commit_receive}

-- Is this the number that was pushed out?
abbrev pub is_some_of : Option ℕ → ℕ → Bool
is_some_of none n = false
is_some_of (some v) n = v == n

contains_below : (lo hi n : ℕ) (xs : List ℕ) → Between lo hi xs → n < lo → contains xs n ≡ false
contains_below lo hi n [] b h = refl
contains_below lo hi n (x ∷ xs) b h = ground (arith, contains_below (suc x) hi n xs b.2)

-- In an ascending list the number removed by index is gone, and only that one.
contains-remove_at :
    (i lo hi n : ℕ) (xs : List ℕ)
    → Between lo hi xs
    → contains (remove_at i xs) n ≡ (if is_some_of (get_elem? xs i) n then false else contains xs n)
contains-remove_at i lo hi n [] b = refl
contains-remove_at zero lo hi n (x ∷ xs) b = ground (arith, contains_below (suc x) hi n xs b.2)
contains-remove_at (suc i) lo hi n (x ∷ xs) b =
    ground (arith, contains-remove_at i (suc x) hi n xs b.2, get_above i (suc x) hi n xs b.2)
  where
    get_above :
        (i lo hi n : ℕ) (xs : List ℕ)
        → Between lo hi xs
        → n < lo
        → is_some_of (get_elem? xs i) n ≡ false
    get_above i lo hi n [] b h = refl
    get_above zero lo hi n (x ∷ xs) b h = ground arith
    get_above (suc i) lo hi n (x ∷ xs) b h = get_above i (suc x) hi n xs b.2 (omega arith)

contains-evict :
    (lo hi n : ℕ) (s : SynchronizationState)
    → Between lo hi s.received_states
    → contains (evict s).0.received_states n
      ≡ (if is_some_of (evict s).1 n then false else contains s.received_states n)
unfolding evict
contains-evict lo hi n s b =
    ground (arith, contains-remove_at (first_evictable s) lo hi n s.received_states b)

promote-Between :
    (plan : ApplyPlan) (s : SynchronizationState)
    → Between s.remote_throwaway_floor s.remote_latest s.received_states
    → (hi : ℕ) × Between (promote plan s).remote_throwaway_floor hi (promote plan s).received_states
unfolding promote
promote-Between plan s b = elim (Bool-cases plan.becomes_latest) [
  | inl e ↦ (
    s.remote_latest,
    ground (
      arith,
      Between-retain (max s.remote_throwaway_floor plan.throwaway_state) s.remote_throwaway_floor
          s.remote_latest s.received_states b,
    ),
  )
  | inr e ↦ (s.remote_latest, ground (arith, b))
]

pub contains-promote :
    (plan : ApplyPlan) (n : ℕ) (s : SynchronizationState)
    → Between s.remote_throwaway_floor s.remote_latest s.received_states
    → contains (promote plan s).received_states n ≡ (
        if leb (promote plan s).remote_throwaway_floor n
        then contains s.received_states n
        else false)
unfolding promote
contains-promote plan n s b = ground (
  arith,
  contains-retain (max s.remote_throwaway_floor plan.throwaway_state) n s.received_states,
  contains_below s.remote_throwaway_floor s.remote_latest n s.received_states b,
)

pub evict_floor :
    (s : SynchronizationState) → (evict s).0.remote_throwaway_floor ≡ s.remote_throwaway_floor
unfolding evict
evict_floor s = ground arith

front_kept :
    (floor hi : ℕ) (s : SynchronizationState)
    → s.remote_throwaway_floor ≡ floor
    → Between floor hi s.received_states
    → contains s.received_states floor ≡ true
    → is_some_of (evict s).1 floor ≡ false
unfolding evict first_evictable
front_kept floor hi s e b c = go s.received_states refl b c
  where
    go :
        (xs : List ℕ)
        → s.received_states ≡ xs
        → Between floor hi xs
        → contains xs floor ≡ true
        → is_some_of (evict s).1 floor ≡ false
    go [] e' b' c' = cc
    go (x ∷ []) e' b' c' = ground arith
    go (x ∷ y ∷ ys) e' b' c' = ground (arith, contains_below (suc x) hi floor (y ∷ ys) b'.2)

-- After a commit the held states are the new one, and of the earlier ones exactly those that lie at
-- or above the floor and are not the one that the commit reports as pushed out.
pub store-contents :
    (plan : ApplyPlan) (s : SynchronizationState) (n : ℕ)
    → IsReceiver s
    → let t = (store plan s).0 in
      contains t.received_states n ≡ (
        if plan.target_state == n
        then true
        else if is_some_of (store plan s).1 n
        then false
        else if leb t.remote_throwaway_floor n
        then contains s.received_states n
        else false)
unfolding store
store-contents plan s n v =
    let p = promote plan s in
    let (hi, b) = promote-Between plan s v.received_ordered in
    ground (
      arith,
      contains-insert_ordered plan.target_state n (evict p).0.received_states,
      contains-evict p.remote_throwaway_floor hi n p b,
      contains-promote plan n s v.received_ordered,
      evict_floor p,
    )

-- A commit does not push out the state at the throwaway floor, from which the peer may still send.
pub store-keeps_floor :
    (plan : ApplyPlan) (s : SynchronizationState)
    → IsReceiver s
    → contains s.received_states (store plan s).0.remote_throwaway_floor ≡ true
    → contains (store plan s).0.received_states (store plan s).0.remote_throwaway_floor ≡ true
unfolding store
store-keeps_floor plan s v held =
    let p = promote plan s in
    let (hi, b) = promote-Between plan s v.received_ordered in
    ground (
      arith,
      contains-insert_ordered plan.target_state p.remote_throwaway_floor
          (evict p).0.received_states,
      contains-evict p.remote_throwaway_floor hi p.remote_throwaway_floor p b,
      contains-promote plan p.remote_throwaway_floor s v.received_ordered,
      evict_floor p,
      front_kept p.remote_throwaway_floor hi p refl b,
    )

-- What the same acknowledgement says the second time.
abbrev pub again : AcknowledgementDisposition → AcknowledgementDisposition
again (advanced from to) = current
again current = current
again stale = stale
again unknown = unknown

observe_acknowledgement-again :
    (a : ℕ) (s t u : SynchronizationState) (d : AcknowledgementDisposition)
    → observe_acknowledgement a s ≡ (t, ok d)
    → u.known_receiver_state ≡ t.known_receiver_state
    → u.sent_states ≡ t.sent_states
    → observe_acknowledgement a u ≡ (u, ok (again d))
unfolding observe_acknowledgement
observe_acknowledgement-again a s t u d e k w = ground arith

-- What `begin_receive` checked and did, when it handed out a plan.
record IsBegun (i : TransportInstruction) (s t : SynchronizationState)
    (a : AcknowledgementDisposition) : Type 0 where
  validated : (validate_instruction i s).1 ≡ ok tt
  observed : observe_acknowledgement i.acknowledged_state s ≡ (t, ok a)

begin_receive-IsBegun :
    (i : TransportInstruction) (s t : SynchronizationState) (a : AcknowledgementDisposition)
    (plan : ApplyPlan)
    → begin_receive i s ≡ (t, ok (record { acknowledgement = a; remote_state = apply plan }))
    → IsBegun i s t a
unfolding begin_receive validate_instruction
begin_receive-IsBegun i s t a plan e = ground arith

-- A state whose numbers satisfy the instruction, and which holds its target, answers a delivery
-- without any change.
delivered_again :
    (i : TransportInstruction) (s t u : SynchronizationState) (a : AcknowledgementDisposition)
    → IsBegun i s t a
    → u.local_latest ≡ s.local_latest
    → u.known_receiver_state ≡ t.known_receiver_state
    → u.sent_states ≡ t.sent_states
    → contains u.received_states i.new_state ≡ true
    → u.remote_throwaway_floor ≤ i.base_state
    → u.remote_throwaway_floor ≤ i.new_state
    → begin_receive i u
      ≡ (u, ok (record { acknowledgement = again a; remote_state = already_constructed }))
unfolding begin_receive remote_disposition validate_instruction
delivered_again i s t u a b l k w held base_le new_le =
    ground (
      arith,
      b.validated,
      observe_acknowledgement-again i.acknowledged_state s t u a b.observed k w,
    )

observe_acknowledgement-local :
    (a : ℕ) (s : SynchronizationState)
    → (observe_acknowledgement a s).0.local_latest ≡ s.local_latest
unfolding observe_acknowledgement
observe_acknowledgement-local a s = ground arith

valid_throwaway :
    (i : TransportInstruction) (s : SynchronizationState)
    → (validate_instruction i s).1 ≡ ok tt
    → (i.discard_before_state ≤ i.base_state) × (i.base_state < i.new_state)
unfolding validate_instruction
valid_throwaway i s h = ground arith

-- An instruction that was applied can arrive again at any time before the next call: the repetition
-- is reported as constructed already and changes nothing.
pub redelivery_changes_nothing :
    (i : TransportInstruction) (s t : SynchronizationState) (a : AcknowledgementDisposition)
    (plan : ApplyPlan)
    → IsReceiver t
    → t.receiver_generation < u64_max
    → begin_receive i s ≡ (t, ok (record { acknowledgement = a; remote_state = apply plan }))
    → let u = (commit_receive plan t).0 in
      begin_receive i u
      ≡ (u, ok (record { acknowledgement = again a; remote_state = already_constructed }))
redelivery_changes_nothing i s t a plan v fits e =
    let u = (commit_receive plan t).0 in
    let b = begin_receive-IsBegun i s t a plan e in
    let f = begin_receive-IsFresh i s t a plan e in
    let g = begin_receive-IsIssued i s t a plan e in
    let c = begin_receive-commit_receive i s t a plan v fits e in
    let w = commit_receive-SameSender plan t in
    let local = observe_acknowledgement-local i.acknowledged_state s in
    let (thrown, forward) = valid_throwaway i s b.validated in
    let floor_le : u.remote_throwaway_floor ≤ i.base_state =
      ground (arith, c.3, f.from_base, g.base_above_floor, thrown) in
    delivered_again i s t u a b (ground (arith, w.same_local, local, b.observed)) w.same_known
      w.same_sent c.1 floor_le (omega (arith, floor_le, forward))
