-- ===== src/Session/Driver/Coherence/Synchronizing.antt =====
-- The calls of the synchronization state that an instruction leads to keep the driver coherent.
use mosh_client_rs.Prelude.{◌≡◌, refl, subst, arith, true, Result, ok, err, inl}
use mosh_client_rs.Instruction.Message.{TransportInstruction}
use mosh_client_rs.Synchronization.State.{
  SynchronizationState, SynchronizationError, ApplyPlan, ReceiveTransition, ShutdownTransition,
  ReceiveCommit, RemoteStateDisposition, apply, already_constructed, missing_reference,
  below_throwaway_floor, below_retention_window, AcknowledgementDisposition,
}
use mosh_client_rs.Synchronization.Receiver.{
  begin_receive, begin_shutdown_receive, commit_receive, contains, is_invalid_shutdown,
}
use mosh_client_rs.Synchronization.Sender.{observe_acknowledgement}
use mosh_client_rs.Synchronization.Invariant.{
  IsValid, IsReceiver, IsIssued, commit_receive-IsReceiver,
}
use mosh_client_rs.Synchronization.Steps.{receive, shut_down, Step-IsValid, begin_receive-IsIssued}
use mosh_client_rs.Synchronization.Halves.{
  SameReceiver, SameSender, SameSender-IsSender, commit_receive-SameSender,
  begin_receive-SameReceiver, begin_shutdown_receive-SameReceiver,
}
use mosh_client_rs.Synchronization.Delivery.{begin_receive-IsFresh}
use mosh_client_rs.Prediction.State.{LocalPrediction}
use mosh_client_rs.Session.History.{ClientHistory}
use mosh_client_rs.Session.Driver.State.{
  Platform, Terminal, TerminalMap, Driver, on_sync, insert_terminal,
}
use mosh_client_rs.Session.Driver.Receiving.{acknowledge_known, discard_terminal_states}
use mosh_client_rs.Session.Driver.Numbered.{
  IsNumbered, IsNarrowed, IsNarrowed-IsNumbered, received-IsNumbered, shut_down-IsNumbered,
  acknowledged-IsNumbered,
}
use mosh_client_rs.Session.Driver.Stored.{SameReceiver-IsStored, commit_receive-IsStored}
use mosh_client_rs.Session.Driver.Outcome.{Ends}
use mosh_client_rs.Session.Driver.Coherence.{Agree, IsCoherent}

-- A plan to apply is one that the state issued, with a base that it holds.
abbrev pub IsBacked : RemoteStateDisposition → SynchronizationState → Type 0
IsBacked (apply plan) s = IsIssued plan s × (contains s.received_states plan.base_state ≡ true)
IsBacked already_constructed s = Unit
IsBacked missing_reference s = Unit
IsBacked below_throwaway_floor s = Unit
IsBacked below_retention_window s = Unit

begun-IsBacked :
    (i : TransportInstruction) (s t : SynchronizationState) (a : AcknowledgementDisposition)
    (r : RemoteStateDisposition)
    → begin_receive i s ≡ (t, ok (record { acknowledgement = a; remote_state = r }))
    → IsBacked r t
begun-IsBacked i s t a (apply plan) e =
    (begin_receive-IsIssued i s t a plan e, (begin_receive-IsFresh i s t a plan e).base_held)
begun-IsBacked i s t a already_constructed e = tt
begun-IsBacked i s t a missing_reference e = tt
begun-IsBacked i s t a below_throwaway_floor e = tt
begun-IsBacked i s t a below_retention_window e = tt

shut_down-held :
    (i : TransportInstruction) (s t : SynchronizationState) (r : ShutdownTransition)
    → begin_shutdown_receive i s ≡ (t, ok r)
    → contains t.received_states r.base_state ≡ true
unfolding begin_shutdown_receive is_invalid_shutdown observe_acknowledgement
shut_down-held i s t r e = ground arith

SameSender-IsNarrowed : (s t : SynchronizationState) → SameSender s t → IsNarrowed s t
SameSender-IsNarrowed s t e = record {
  same_latest = e.same_local;
  known_from = inl e.same_known;
  sent_from = λ n h. rw⁻¹ e.same_sent h;
}

module _ (p : Platform) where
  received-Agree :
      (i : TransportInstruction) (s t : SynchronizationState) (r : ReceiveTransition)
      (h : ClientHistory) (m : TerminalMap (Terminal p)) (q : LocalPrediction (Terminal p))
      → begin_receive i s ≡ (t, ok r)
      → Agree p s h m q
      → Agree p t h m q
  received-Agree i s t r h m q e a = record {
    valid = subst (λ x. IsValid x.0) e (Step-IsValid (receive i) a.valid);
    numbered = subst (λ x. IsNumbered x.0 h) e (received-IsNumbered i s h a.numbered);
    stored =
        SameReceiver-IsStored s t m
          (subst (λ x. SameReceiver s x.0) e (begin_receive-SameReceiver i s)) a.stored;
    predicts = a.predicts;
  }

  shut_down-Agree :
      (i : TransportInstruction) (s t : SynchronizationState) (r : ShutdownTransition)
      (h : ClientHistory) (m : TerminalMap (Terminal p)) (q : LocalPrediction (Terminal p))
      → begin_shutdown_receive i s ≡ (t, ok r)
      → Agree p s h m q
      → Agree p t h m q
  shut_down-Agree i s t r h m q e a = record {
    valid = subst (λ x. IsValid x.0) e (Step-IsValid (shut_down i) a.valid);
    numbered = subst (λ x. IsNumbered x.0 h) e (shut_down-IsNumbered i s h a.numbered);
    stored =
        SameReceiver-IsStored s t m
          (subst (λ x. SameReceiver s x.0) e (begin_shutdown_receive-SameReceiver i s)) a.stored;
    predicts = a.predicts;
  }

  delivered-Agree :
      (plan : ApplyPlan) (s t : SynchronizationState) (c : ReceiveCommit) (x : Terminal p)
      (h : ClientHistory) (m : TerminalMap (Terminal p)) (q : LocalPrediction (Terminal p))
      → commit_receive plan s ≡ (t, ok c)
      → IsIssued plan s
      → Agree p s h m q
      → Agree p t h
          (discard_terminal_states c.discard_before_state c.capacity_evicted_state
            (insert_terminal plan.target_state x m))
          q
  delivered-Agree plan s t c x h m q e g a =
      let w = subst (λ y. SameSender s y.0) e (commit_receive-SameSender plan s) in
      record {
        valid = record {
          sender = SameSender-IsSender s t w a.valid.sender;
          receiver =
              subst (λ y. IsReceiver y.0) e (commit_receive-IsReceiver plan s a.valid.receiver g);
        };
        numbered = IsNarrowed-IsNumbered s t h (SameSender-IsNarrowed s t w) a.numbered;
        stored = commit_receive-IsStored plan s t c x m e a.valid.receiver g a.stored;
        predicts = a.predicts;
      }

  pub on_sync-begin_receive :
      (i : TransportInstruction) (d : Driver (Terminal p))
      → IsCoherent p d
      → Ends (λ r e. IsCoherent p e × IsBacked r.remote_state e.sync) (on_sync (begin_receive i) d)
  unfolding Ends
  on_sync-begin_receive i d c = go (begin_receive i d.sync) refl
    where
      go :
          (x : SynchronizationState × Result SynchronizationError ReceiveTransition)
          → begin_receive i d.sync ≡ x
          → Ends
              (λ r e. IsCoherent p e × IsBacked r.remote_state e.sync)
              (on_sync (begin_receive i) d)
      go (t, ok r) e = rw e (
        received-Agree i d.sync t r _ _ _ e c,
        begun-IsBacked i d.sync t r.acknowledgement r.remote_state e,
      )
      go (t, err x) e = rw e tt

  pub on_sync-begin_shutdown_receive :
      (i : TransportInstruction) (d : Driver (Terminal p))
      → IsCoherent p d
      → Ends
          (λ r e. IsCoherent p e × (contains e.sync.received_states r.base_state ≡ true))
          (on_sync (begin_shutdown_receive i) d)
  unfolding Ends
  on_sync-begin_shutdown_receive i d c = go (begin_shutdown_receive i d.sync) refl
    where
      go :
          (x : SynchronizationState × Result SynchronizationError ShutdownTransition)
          → begin_shutdown_receive i d.sync ≡ x
          → Ends
              (λ r e. IsCoherent p e × (contains e.sync.received_states r.base_state ≡ true))
              (on_sync (begin_shutdown_receive i) d)
      go (t, ok r) e = rw e (shut_down-Agree i d.sync t r _ _ _ e c, shut_down-held i d.sync t r e)
      go (t, err x) e = rw e tt

  -- The state that a commit leaves, once its terminal state is stored.
  pub on_sync-commit_receive :
      (plan : ApplyPlan) (x : Terminal p) (d : Driver (Terminal p))
      → IsIssued plan d.sync
      → IsCoherent p d
      → Ends
          (λ c e.
            Agree p e.sync e.client_history
              (discard_terminal_states c.discard_before_state c.capacity_evicted_state
                (insert_terminal plan.target_state x e.terminal_states))
              e.prediction)
          (on_sync (commit_receive plan) d)
  unfolding Ends
  on_sync-commit_receive plan x d g i = go (commit_receive plan d.sync) refl
    where
      go :
          (y : SynchronizationState × Result SynchronizationError ReceiveCommit)
          → commit_receive plan d.sync ≡ y
          → Ends
              (λ c e.
                Agree p e.sync e.client_history
                  (discard_terminal_states c.discard_before_state c.capacity_evicted_state
                    (insert_terminal plan.target_state x e.terminal_states))
                  e.prediction)
              (on_sync (commit_receive plan) d)
      go (t, ok c) e = rw e (delivered-Agree plan d.sync t c x _ _ _ e g i)
      go (t, err z) e = rw e tt

  -- What the state is acknowledged for is known, and forgetting what lies before changes no other
  -- part.
  pub acknowledge_known-Ends :
      (Q : SynchronizationState → Type 0) (d : Driver (Terminal p))
      → IsCoherent p d
      → Q d.sync
      → Ends (λ _ e. IsCoherent p e × Q e.sync) (acknowledge_known d)
  unfolding acknowledge_known Ends
  acknowledge_known-Ends Q d i h =
      let (done, n) = acknowledged-IsNumbered d.sync d.client_history i.valid.sender i.numbered in
      rw done
        (record { valid = i.valid; numbered = n; stored = i.stored; predicts = i.predicts }, h)
