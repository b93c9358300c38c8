-- ===== src/Synchronization/Steps.antt =====
-- The synchronization state under any sequence of calls: what every reachable state satisfies, and
-- the numbers that only grow.
use mosh_client_rs.Prelude.{
  ℕ, zero, suc, ◌≤◌, ◌≡◌, ◌⊎◌, inl, inr, sym, ◌∙◌, subst, arith, some, List, [], ◌∷◌, All,
  get_elem?, ok, ◌==◌, Bool-cases,
}
use mosh_client_rs.Instruction.{TransportInstruction}
use mosh_client_rs.Synchronization.State.{
  SynchronizationState, SendPlan, ApplyPlan, AcknowledgementDisposition, apply, new,
}
use mosh_client_rs.Synchronization.Sender.{advance_local, commit_send}
use mosh_client_rs.Synchronization.Receiver.{
  begin_receive, begin_shutdown_receive, commit_receive, validate_instruction, remote_disposition,
  is_invalid_shutdown, is_stale_apply,
}
use mosh_client_rs.Synchronization.Invariant.{
  IsSender, IsReceiver, IsValid, IsIssued, new-IsValid, advance_local-IsSender,
  observe_acknowledgement-IsSender, commit_send-IsSender, commit_receive-IsReceiver,
}
use mosh_client_rs.Synchronization.Halves.{
  SameReceiver, SameReceiver-IsReceiver, SameSender-IsSender, advance_local-SameReceiver,
  commit_send-SameReceiver, observe_acknowledgement-SameReceiver, begin_receive-SameReceiver,
  begin_shutdown_receive-SameReceiver, commit_receive-SameSender,
}

-- A call of the program that needs no plan of `begin_receive`.
pub data Step (s : SynchronizationState) : SynchronizationState → Type 0 where
  advance : Step s (advance_local s).0
  send : (plan : SendPlan) → Step s (commit_send plan s).0
  receive : (i : TransportInstruction) → Step s (begin_receive i s).0
  shut_down : (i : TransportInstruction) → Step s (begin_shutdown_receive i s).0

-- Calls from a state, with the plans that `begin_receive` handed out on the way. A plan that was handed
-- out can be committed at any later time, in any order and more than once.
pub data Reach (s : SynchronizationState) : List ApplyPlan → SynchronizationState → Type 0 where
  here : Reach s [] s
  next :
      {t u : SynchronizationState} {plans : List ApplyPlan}
      → Reach s plans t
      → Step t u
      → Reach s plans u
  issue :
      {t u : SynchronizationState} {plans : List ApplyPlan} {plan : ApplyPlan}
      → Reach s plans t
      → (i : TransportInstruction) (a : AcknowledgementDisposition)
      → begin_receive i t ≡ (u, ok (record { acknowledgement = a; remote_state = apply plan }))
      → Reach s (plan ∷ plans) u
  deliver :
      {t : SynchronizationState} {plans : List ApplyPlan} {plan : ApplyPlan}
      → Reach s plans t
      → (place : ℕ) → get_elem? plans place ≡ some plan
      → Reach s plans (commit_receive plan t).0

begin_receive-IsSender :
    (i : TransportInstruction) (s : SynchronizationState)
    → IsSender s
    → IsSender (begin_receive i s).0
unfolding begin_receive validate_instruction
begin_receive-IsSender i s v = ground (
  arith,
  v.known_le,
  v.local_fits,
  v.sent_ordered,
  v.sent_bounded,
  observe_acknowledgement-IsSender i.acknowledged_state s v,
)

begin_shutdown_receive-IsSender :
    (i : TransportInstruction) (s : SynchronizationState)
    → IsSender s
    → IsSender (begin_shutdown_receive i s).0
unfolding begin_shutdown_receive is_invalid_shutdown
begin_shutdown_receive-IsSender i s v = ground (
  arith,
  v.known_le,
  v.local_fits,
  v.sent_ordered,
  v.sent_bounded,
  observe_acknowledgement-IsSender i.acknowledged_state s v,
)

-- A plan that `begin_receive` hands out is backed by the state it leaves.
pub begin_receive-IsIssued :
    (i : TransportInstruction) (s t : SynchronizationState) (a : AcknowledgementDisposition)
    (plan : ApplyPlan)
    → begin_receive i s ≡ (t, ok (record { acknowledgement = a; remote_state = apply plan }))
    → IsIssued plan t
unfolding begin_receive validate_instruction remote_disposition
begin_receive-IsIssued i s t a plan e =
    ground (arith, observe_acknowledgement-SameReceiver i.acknowledged_state s)

pub Step-IsValid : {s t : SynchronizationState} → Step s t → IsValid s → IsValid t
Step-IsValid {s} advance v = record {
  sender = advance_local-IsSender s v.sender;
  receiver = SameReceiver-IsReceiver s _ (advance_local-SameReceiver s) v.receiver;
}
Step-IsValid {s} (send plan) v = record {
  sender = commit_send-IsSender plan s v.sender;
  receiver = SameReceiver-IsReceiver s _ (commit_send-SameReceiver plan s) v.receiver;
}
Step-IsValid {s} (receive i) v = record {
  sender = begin_receive-IsSender i s v.sender;
  receiver = SameReceiver-IsReceiver s _ (begin_receive-SameReceiver i s) v.receiver;
}
Step-IsValid {s} (shut_down i) v = record {
  sender = begin_shutdown_receive-IsSender i s v.sender;
  receiver = SameReceiver-IsReceiver s _ (begin_shutdown_receive-SameReceiver i s) v.receiver;
}

-- A plan of an older generation is refused; one of the present generation is still backed.
pub record IsHeld (s : SynchronizationState) (plan : ApplyPlan) : Type 0 where
  pub from_past : plan.generation ≤ s.receiver_generation
  pub backed : plan.generation ≡ s.receiver_generation → IsIssued plan s

SameReceiver-IsIssued :
    (s t : SynchronizationState) (plan : ApplyPlan)
    → SameReceiver s t
    → IsIssued plan s
    → IsIssued plan t
SameReceiver-IsIssued s t plan e h = ground (arith, e.same_latest, e.same_floor)

SameReceiver-IsHeld :
    (s t : SynchronizationState) (plan : ApplyPlan)
    → SameReceiver s t
    → IsHeld s plan
    → IsHeld t plan
SameReceiver-IsHeld s t plan e h = record {
  from_past = subst (λ n. plan.generation ≤ n) (sym e.same_generation) h.from_past;
  backed = λ now. SameReceiver-IsIssued s t plan e (h.backed (now ∙ e.same_generation));
}

-- A commit is refused and changes nothing, or the plan is of the present generation, which then ends.
commit_receive-cases :
    (plan : ApplyPlan) (s : SynchronizationState)
    → ((commit_receive plan s).0 ≡ s)
      ⊎ ((plan.generation ≡ s.receiver_generation)
          × ((commit_receive plan s).0.receiver_generation ≡ suc s.receiver_generation))
unfolding commit_receive is_stale_apply
commit_receive-cases plan s = elim (Bool-cases (plan.generation == s.receiver_generation)) [
  | inl now ↦ ground (arith, now)
  | inr past ↦ inl (ground (arith, past))
]

commit_receive-IsHeld :
    (plan other : ApplyPlan) (s : SynchronizationState)
    → IsHeld s other
    → IsHeld (commit_receive plan s).0 other
commit_receive-IsHeld plan other s h = elim (commit_receive-cases plan s) [
  | inl same ↦ subst (λ t. IsHeld t other) (sym same) h
  | inr (_, counted) ↦ record {
    from_past = omega (arith, counted, h.from_past);
    backed = λ now. absurd (omega (arith, counted, now, h.from_past));
  }
]

All-map :
    {P Q : ApplyPlan → Type 0} (plans : List ApplyPlan)
    → ((plan : ApplyPlan) → P plan → Q plan)
    → All P plans
    → All Q plans
All-map [] f h = tt
All-map (plan ∷ plans) f h = (f plan h.0, All-map plans f h.1)

All-place :
    (P : ApplyPlan → Type 0) (plans : List ApplyPlan) (place : ℕ) (plan : ApplyPlan)
    → All P plans
    → get_elem? plans place ≡ some plan
    → P plan
All-place P [] place plan h e = absurd (ground (arith, e))
All-place P (q ∷ plans) zero plan h e = subst P (ground (arith, e)) h.0
All-place P (q ∷ plans) (suc place) plan h e = All-place P plans place plan h.1 e

Step-SameReceiver : {s t : SynchronizationState} → Step s t → SameReceiver s t
Step-SameReceiver {s} advance = advance_local-SameReceiver s
Step-SameReceiver {s} (send plan) = commit_send-SameReceiver plan s
Step-SameReceiver {s} (receive i) = begin_receive-SameReceiver i s
Step-SameReceiver {s} (shut_down i) = begin_shutdown_receive-SameReceiver i s

issued_now :
    (i : TransportInstruction) (s t : SynchronizationState) (a : AcknowledgementDisposition)
    (plan : ApplyPlan)
    → begin_receive i s ≡ (t, ok (record { acknowledgement = a; remote_state = apply plan }))
    → plan.generation ≡ t.receiver_generation
unfolding begin_receive validate_instruction remote_disposition
issued_now i s t a plan e = ground arith

pub Reach-IsHeld :
    {s t : SynchronizationState} {plans : List ApplyPlan} → Reach s plans t → All (IsHeld t) plans
Reach-IsHeld here = tt
Reach-IsHeld {plans} (next {t = m} {u} r st) =
    All-map plans (λ plan h. SameReceiver-IsHeld m u plan (Step-SameReceiver st) h) (Reach-IsHeld r)
Reach-IsHeld (issue {t = m} {u} {plans} {plan} r i a e) =
    let same = subst (λ x. SameReceiver m x.0) e (begin_receive-SameReceiver i m) in
    (
      record {
        from_past = omega (arith, issued_now i m u a plan e);
        backed = λ _. begin_receive-IsIssued i m u a plan e;
      },
      All-map plans (λ q h. SameReceiver-IsHeld m u q same h) (Reach-IsHeld r),
    )
Reach-IsHeld (deliver {t = m} {plans} {plan} r place e) =
    All-map plans (λ q h. commit_receive-IsHeld plan q m h) (Reach-IsHeld r)

-- What holds of a commit of a backed plan holds of every commit of a held one.
pub commit_of_held :
    (P : SynchronizationState → Type 0) (plan : ApplyPlan) (s : SynchronizationState)
    → IsHeld s plan
    → P s
    → (IsIssued plan s → P (commit_receive plan s).0)
    → P (commit_receive plan s).0
commit_of_held P plan s h same stored = elim (commit_receive-cases plan s) [
  | inl e ↦ subst P (sym e) same
  | inr (now, _) ↦ stored (h.backed now)
]

pub IsHeld-at :
    {s t : SynchronizationState} {plans : List ApplyPlan} (plan : ApplyPlan) (place : ℕ)
    → Reach s plans t
    → get_elem? plans place ≡ some plan
    → IsHeld t plan
IsHeld-at {t} {plans} plan place r e = All-place (IsHeld t) plans place plan (Reach-IsHeld r) e

pub Reach-IsValid :
    {s t : SynchronizationState} {plans : List ApplyPlan} → IsValid s → Reach s plans t → IsValid t
Reach-IsValid v here = v
Reach-IsValid v (next r st) = Step-IsValid st (Reach-IsValid v r)
Reach-IsValid v (issue {t = m} {u} r i a e) =
    subst (λ x. IsValid x.0) e (Step-IsValid (receive i) (Reach-IsValid v r))
Reach-IsValid v (deliver {t = m} {plan} r place e) =
    let w = Reach-IsValid v r in
    record {
      sender = SameSender-IsSender m _ (commit_receive-SameSender plan m) w.sender;
      receiver =
          commit_of_held IsReceiver plan m (IsHeld-at plan place r e) w.receiver
            (λ b. commit_receive-IsReceiver plan m w.receiver b);
    }

-- Every state that calls can reach from a new one is valid, where a plan of `begin_receive` may be
-- committed at any later time, in any order and more than once: the sent numbers ascend strictly
-- between the acknowledged and the latest local state, at most 32 of them; the received numbers ascend
-- strictly from the throwaway floor to the latest remote state, which is among them, at most 32.
pub reachable-IsValid :
    (t : SynchronizationState) (plans : List ApplyPlan) → Reach new plans t → IsValid t
reachable-IsValid t plans r = Reach-IsValid new-IsValid r
