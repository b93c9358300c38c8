-- ===== src/Session/Driver/Coherence/Planning.antt =====
-- What the driver sends about its own states is always known to its history.
use mosh_client_rs.Prelude.{
  ◌≡◌, refl, subst, ℕ, ◌≤◌, true, Option, none, some, List, Result, ok, err, lift,
}
use mosh_client_rs.Synchronization.State.{
  SynchronizationState, SynchronizationError, state_number_exhausted, invalid_acknowledgement,
  incompatible_version, invalid_state_transition, invalid_throwaway, invalid_retransmission_timeout,
  time_moved_backwards, no_new_state, stale_plan, generation_exhausted, SendPlan, SendCommit,
}
use mosh_client_rs.Synchronization.Sender.{advance_local, plan_send, commit_send}
use mosh_client_rs.Synchronization.Invariant.{IsValid}
use mosh_client_rs.Synchronization.Steps.{Step-IsValid, advance, send}
use mosh_client_rs.Synchronization.Halves.{
  advance_local-SameReceiver, commit_send-SameReceiver, SameReceiver,
}
use mosh_client_rs.Prediction.State.{LocalPrediction}
use mosh_client_rs.Session.History.{ClientHistory, checkpoint, difference, from_instruction}
use mosh_client_rs.Session.Log.{difference-log}
use mosh_client_rs.Session.Checkpoints.{has, has-lookup, Points-ascend}
use mosh_client_rs.Instruction.Message.{InstructionError}
use mosh_client_rs.Session.Errors.{synchronization, from_history}
use mosh_client_rs.Session.Driver.State.{
  Platform, Terminal, TerminalMap, Driver, from_error, on_sync,
}
use mosh_client_rs.Session.Driver.Sending.{advance_checkpoint, plan_or_advance, commit_plan, forget}
use mosh_client_rs.Session.Driver.Numbered.{advanced-IsNumbered}
use mosh_client_rs.Session.Driver.Sent.{plan_send-IsNumbered, committed-IsNumbered, forgotten}
use mosh_client_rs.Session.Driver.Stored.{SameReceiver-IsStored}
use mosh_client_rs.Session.Driver.Outcome.{IsExternalResult, Ends, Ends-and_then, Keeps}
use mosh_client_rs.Session.Driver.Coherence.{Agree, IsCoherent, Keeps-pure}

module _ (p : Platform) where
  pub advanced-Agree :
      (s t : SynchronizationState) (state : ℕ) (h : ClientHistory) (m : TerminalMap (Terminal p))
      (q : LocalPrediction (Terminal p))
      → advance_local s ≡ (t, ok state)
      → Agree p s h m q
      → Agree p t (checkpoint state h) m q
  advanced-Agree s t state h m q e i = record {
    valid = subst (λ r. IsValid r.0) e (Step-IsValid advance i.valid);
    numbered = advanced-IsNumbered s t state h e i.numbered;
    stored =
        SameReceiver-IsStored s t m
          (subst (λ r. SameReceiver s r.0) e (advance_local-SameReceiver s)) i.stored;
    predicts = i.predicts;
  }

  committed-Agree :
      (plan : SendPlan) (s t : SynchronizationState) (c : SendCommit) (h : ClientHistory)
      (m : TerminalMap (Terminal p)) (q : LocalPrediction (Terminal p))
      → commit_send plan s ≡ (t, ok c)
      → Agree p s h m q
      → Agree p t (forgotten c.capacity_evicted_state h) m q
  committed-Agree plan s t c h m q e i = record {
    valid = subst (λ r. IsValid r.0) e (Step-IsValid (send plan) i.valid);
    numbered = committed-IsNumbered plan s t c h e i.valid.sender i.numbered;
    stored =
        SameReceiver-IsStored s t m
          (subst (λ r. SameReceiver s r.0) e (commit_send-SameReceiver plan s)) i.stored;
    predicts = i.predicts;
  }

  -- The state after `advance_local`, once its checkpoint is made.
  pub on_sync-advance_local :
      (d : Driver (Terminal p))
      → IsCoherent p d
      → Ends
          (λ state e.
            Agree p e.sync (checkpoint state e.client_history) e.terminal_states e.prediction)
          (on_sync advance_local d)
  unfolding Ends
  on_sync-advance_local d i = go (advance_local d.sync) refl
    where
      go :
          (r : SynchronizationState × Result SynchronizationError ℕ)
          → advance_local d.sync ≡ r
          → Ends
              (λ state e.
                Agree p e.sync (checkpoint state e.client_history) e.terminal_states e.prediction)
              (on_sync advance_local d)
      go (t, ok state) e = rw e (advanced-Agree d.sync t state _ _ _ e i)
      go (t, err x) e = rw e tt

  pub advance_checkpoint-Keeps :
      (d : Driver (Terminal p)) → IsCoherent p d → Keeps (IsCoherent p) (advance_checkpoint d)
  unfolding advance_checkpoint
  advance_checkpoint-Keeps d i =
      Ends-and_then _ (λ _. IsCoherent p) _ _ (on_sync-advance_local d i)
        λ state e _ c. Keeps-pure p state _ c

  forgotten-forget :
      (o : Option ℕ) (d : Driver (Terminal p))
      → Agree p d.sync (forgotten o d.client_history) d.terminal_states d.prediction
      → IsCoherent p (forget o d)
  forgotten-forget none d i = i
  forgotten-forget (some e) d i = i

  pub commit_plan-Keeps :
      (plan : SendPlan) (d : Driver (Terminal p))
      → IsCoherent p d
      → Keeps (IsCoherent p) (commit_plan plan d)
  unfolding commit_plan Ends
  commit_plan-Keeps plan d i = go (commit_send plan d.sync) refl
    where
      go :
          (r : SynchronizationState × Result SynchronizationError SendCommit)
          → commit_send plan d.sync ≡ r
          → Keeps (IsCoherent p) (commit_plan plan d)
      go (t, ok c) e = rw e (
          forgotten-forget c.capacity_evicted_state (record d { sync = t })
            (committed-Agree plan d.sync t c d.client_history _ _ e i))
      go (t, err x) e = rw e tt

  -- The history knows both states of a plan.
  pub record IsKnown (base target : ℕ) (d : Driver (Terminal p)) : Type 0 where
    pub coherent : IsCoherent p d
    pub base_known : has base d.client_history.checkpoints ≡ true
    pub target_known : has target d.client_history.checkpoints ≡ true
    pub in_order : base ≤ target

  planned-IsKnown :
      (now rto : ℕ) (plan : SendPlan) (d : Driver (Terminal p))
      → plan_send d.sync now rto ≡ ok plan
      → IsCoherent p d
      → IsKnown plan.base_state plan.target_state d
  planned-IsKnown now rto plan d e i =
      let (base, target, le) =
        plan_send-IsNumbered d.sync d.client_history now rto plan e i.numbered in
      record { coherent = i; base_known = base; target_known = target; in_order = le }

  pub plan_send-Ends :
      (now rto : ℕ) (d : Driver (Terminal p))
      → IsCoherent p d
      → Ends
          (λ plan e. IsKnown plan.base_state plan.target_state e)
          (lift (from_error synchronization (plan_send d.sync now rto)) d)
  unfolding Ends
  plan_send-Ends now rto d i = go (plan_send d.sync now rto) refl
    where
      go :
          (r : Result SynchronizationError SendPlan)
          → plan_send d.sync now rto ≡ r
          → Ends
              (λ plan e. IsKnown plan.base_state plan.target_state e)
              (lift (from_error synchronization (plan_send d.sync now rto)) d)
      go (ok plan) e = rw e (planned-IsKnown now rto plan d e i)
      go (err x) e = rw e tt

  difference-IsExternal :
      (r : Result InstructionError (List ℕ))
      → IsExternalResult (from_error from_history (from_instruction r))
  difference-IsExternal (ok bytes) = tt
  difference-IsExternal (err e) = tt

  -- So the difference of a plan never misses a state.
  pub known-difference :
      (base target : ℕ) (d : Driver (Terminal p))
      → IsKnown base target d
      → IsExternalResult (from_error from_history (difference p.wire d.client_history base target))
  known-difference base target d k =
      let n = k.coherent.numbered in
      let (b, eb) = has-lookup base d.client_history.checkpoints k.base_known in
      let (t, et) = has-lookup target d.client_history.checkpoints k.target_known in
      let le =
        Points-ascend 0 d.client_history.operation_offset _ base target b t
          d.client_history.checkpoints n.is_log.points eb et k.in_order in
      rw (difference-log p.wire d.client_history n.log base target b t n.is_log eb et le)
        (difference-IsExternal _)

  pub plan_or_advance-Ends :
      (now : ℕ) (d : Driver (Terminal p))
      → IsCoherent p d
      → Ends
          (λ plan e. IsKnown plan.base_state plan.target_state e)
          (plan_or_advance now
            (plan_send d.sync now d.datagram_timing.estimator.retransmission_timeout_ms)
            d)
  plan_or_advance-Ends now d i =
      go (plan_send d.sync now d.datagram_timing.estimator.retransmission_timeout_ms) refl
    where
      go :
          (r : Result SynchronizationError SendPlan)
          → plan_send d.sync now d.datagram_timing.estimator.retransmission_timeout_ms ≡ r
          → Ends (λ plan e. IsKnown plan.base_state plan.target_state e) (plan_or_advance now r d)
      go (ok plan) e = unfold Ends in planned-IsKnown now _ plan d e i
      go (err no_new_state) e =
          Ends-and_then (λ _. IsCoherent p) (λ plan e. IsKnown plan.base_state plan.target_state e)
            (advance_checkpoint d) _ (advance_checkpoint-Keeps d i)
            (λ state f _ c.
              plan_send-Ends now f.datagram_timing.estimator.retransmission_timeout_ms f c)
      go (err state_number_exhausted) e = unfold Ends in tt
      go (err invalid_acknowledgement) e = unfold Ends in tt
      go (err incompatible_version) e = unfold Ends in tt
      go (err invalid_state_transition) e = unfold Ends in tt
      go (err invalid_throwaway) e = unfold Ends in tt
      go (err invalid_retransmission_timeout) e = unfold Ends in tt
      go (err time_moved_backwards) e = unfold Ends in tt
      go (err stale_plan) e = unfold Ends in tt
      go (err generation_exhausted) e = unfold Ends in tt
