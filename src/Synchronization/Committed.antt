-- ===== src/Synchronization/Committed.antt =====
-- What a commit of a remote state tells its caller to discard: never the state that it stored.
use mosh_client_rs.Prelude.{
  ℕ, zero, suc, ◌≤◌, ◌≡◌, refl, arith, ok, true, false, List, [], ◌∷◌, if◌then◌else◌, leb, ◌==◌,
  get_elem?, Bool-cases, inl, inr, subst,
}
use mosh_client_rs.Synchronization.State.{SynchronizationState, ApplyPlan, ReceiveCommit}
use mosh_client_rs.Synchronization.Receiver.{
  commit_receive, is_stale_apply, store, promote, evict, contains, first_evictable,
}
use mosh_client_rs.Synchronization.Invariant.{IsReceiver, IsIssued}
use mosh_client_rs.Synchronization.Contents.{
  is_some_of, contains-promote, store-contents, evict_floor,
}

absent_at : (i n : ℕ) (xs : List ℕ) → contains xs n ≡ false → is_some_of (get_elem? xs i) n ≡ false
absent_at i n [] h = refl
absent_at zero n (x ∷ xs) h = ground arith
absent_at (suc i) n (x ∷ xs) h = ground (arith, absent_at i n xs)

evict-keeps_absent :
    (n : ℕ) (s : SynchronizationState)
    → contains s.received_states n ≡ false
    → is_some_of (evict s).1 n ≡ false
unfolding evict
evict-keeps_absent n s h = ground (arith, absent_at (first_evictable s) n s.received_states)

-- What `commit_receive` did, when it accepted the plan.
record IsAccepted (plan : ApplyPlan) (s t : SynchronizationState) (c : ReceiveCommit) : Type 0 where
  target_new : contains s.received_states plan.target_state ≡ false
  stored_states : t.received_states ≡ (store plan s).0.received_states
  stored_floor : c.discard_before_state ≡ (store plan s).0.remote_throwaway_floor
  stored_evicted : c.capacity_evicted_state ≡ (store plan s).1

commit_receive-IsAccepted :
    (plan : ApplyPlan) (s t : SynchronizationState) (c : ReceiveCommit)
    → commit_receive plan s ≡ (t, ok c)
    → IsAccepted plan s t c
unfolding commit_receive is_stale_apply
commit_receive-IsAccepted plan s t c e = ground arith

store-spares_target :
    (plan : ApplyPlan) (s : SynchronizationState)
    → IsReceiver s
    → IsIssued plan s
    → contains s.received_states plan.target_state ≡ false
    → (is_some_of (store plan s).1 plan.target_state ≡ false)
      × ((store plan s).0.remote_throwaway_floor ≤ plan.target_state)
unfolding store promote
store-spares_target plan s v g fresh = ground (
  arith,
  evict-keeps_absent plan.target_state (promote plan s),
  contains-promote plan plan.target_state s v.received_ordered,
  evict_floor (promote plan s),
  g.above_floor,
  g.progresses,
  g.keeps_base,
)

-- To discard what the commit says, after inserting the new state, leaves exactly the states that
-- the synchronization state holds.
pub commit_receive-contents :
    (plan : ApplyPlan) (s t : SynchronizationState) (c : ReceiveCommit) (n : ℕ)
    → commit_receive plan s ≡ (t, ok c)
    → IsReceiver s
    → IsIssued plan s
    → contains t.received_states n ≡ (
        if is_some_of c.capacity_evicted_state n
        then false
        else if leb c.discard_before_state n
        then (if plan.target_state == n then true else contains s.received_states n)
        else false)
commit_receive-contents plan s t c n e v g =
    let a = commit_receive-IsAccepted plan s t c e in
    let k = store-spares_target plan s v g a.target_new in
    let kept = store-contents plan s n v in
    elim (Bool-cases (plan.target_state == n)) [
      | inl here ↦
          let same : plan.target_state ≡ n = ground (arith, here) in
          ground (
            arith,
            here,
            kept,
            a.stored_states,
            a.stored_floor,
            a.stored_evicted,
            subst (λ (m : ℕ). is_some_of (store plan s).1 m ≡ false) same k.0,
            k.1,
            same,
          )
      | inr other ↦ ground (arith, other, kept, a.stored_states, a.stored_floor, a.stored_evicted)
    ]
