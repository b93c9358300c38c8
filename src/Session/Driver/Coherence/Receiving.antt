-- ===== src/Session/Driver/Coherence/Receiving.antt =====
-- Whatever datagram arrives, handling it keeps the driver coherent and meets no internal error.
use mosh_client_rs.Prelude.{
  ◌≡◌, arith, ℕ, true, Option, none, some, Result, ok, err, ok_or, lift, ◌==◌, Bool-cases, inl, inr,
}
use mosh_client_rs.Instruction.Message.{TransportInstruction}
use mosh_client_rs.Synchronization.State.{
  ApplyPlan, RemoteStateDisposition, apply, already_constructed, missing_reference,
  below_throwaway_floor, below_retention_window,
}
use mosh_client_rs.Synchronization.Receiver.{contains}
use mosh_client_rs.Synchronization.Invariant.{IsIssued}
use mosh_client_rs.Timing.Scheduler.{SendScheduler, note_acknowledgement_needed}
use mosh_client_rs.Terminal.Difference.{decode as decode_difference}
use mosh_client_rs.Terminal.State.{apply as apply_difference}
use mosh_client_rs.Prediction.State.{clear, observe_authoritative}
use mosh_client_rs.Prediction.Soundness.{observe_authoritative-IsKept, clear-IsSound}
use mosh_client_rs.Session.Reachability.{SessionReachability, update}
use mosh_client_rs.Session.Errors.{DriverError, timing, terminal, missing_terminal_state}
use mosh_client_rs.Session.Driver.State.{
  Platform, Terminal, Driver, from_error, on_scheduler, on_prediction, lookup_terminal,
  prediction_terminal, is_connecting, when,
}
use mosh_client_rs.Session.Driver.Receiving.{
  accept_latest, activate, publish, publish_reachability, store_terminal, apply_plan, apply_remote,
  handle_normal_instruction, handle_remote_shutdown, ordinary,
}
use mosh_client_rs.Session.Driver.Outcome.{IsExternal, Ends, Ends-and_then, Keeps, Keeps-from}
use mosh_client_rs.Session.Driver.Coherence.{
  Agree, IsCoherent, Keeps-and_then, Keeps-pure, external, from_error-IsExternal, held-lookup,
  on_tracker-Keeps,
}
use mosh_client_rs.Session.Driver.Coherence.Sending.{clock-Keeps}
use mosh_client_rs.Session.Driver.Coherence.Synchronizing.{
  IsBacked, on_sync-begin_receive, on_sync-begin_shutdown_receive, on_sync-commit_receive,
  acknowledge_known-Ends,
}

module _ (p : Platform) where
  -- The look-up of a terminal state whose number is held.
  pub held-Ends :
      (Q : Driver (Terminal p) → Type 0) (n : ℕ) (d : Driver (Terminal p))
      → IsCoherent p d
      → contains d.sync.received_states n ≡ true
      → Q d
      → Ends (λ _. Q) (lift (ok_or (lookup_terminal n d.terminal_states) missing_terminal_state) d)
  unfolding Ends
  held-Ends Q n d i c q = let (x, e) = held-lookup p n d i c in rw e q

  -- A call that leaves the driver alone.
  external-Ends :
      {E A : Type 0} (Q : Driver (Terminal p) → Type 0) (f : E → DriverError) (r : Result E A)
      (d : Driver (Terminal p))
      → ((e : E) → IsExternal (f e))
      → Q d
      → Ends (λ _. Q) (lift (from_error f r) d)
  unfolding Ends
  external-Ends Q f (ok a) d h q = q
  external-Ends Q f (err e) d h q = h e

  observe_authoritative-Keeps :
      (authoritative : Terminal p) (d : Driver (Terminal p))
      → IsCoherent p d
      → Keeps
          (IsCoherent p)
          (on_prediction (observe_authoritative (prediction_terminal p.library) authoritative) d)
  unfolding Ends
  observe_authoritative-Keeps authoritative d i =
      elim (observe_authoritative-IsKept (prediction_terminal p.library) d.prediction authoritative
        i.predicts) [
          | inl (done, s) ↦
              rw done
                (record { valid = i.valid; numbered = i.numbered; stored = i.stored; predicts = s })
          | inr (e, failed) ↦ rw failed tt
        ]

  activate-IsCoherent : (d : Driver (Terminal p)) → IsCoherent p d → IsCoherent p (activate d)
  activate-IsCoherent d i = elim (Bool-cases (is_connecting d.session_state)) [
    | inl first ↦ rw first i
    | inr later ↦ rw later i
  ]

  accept_latest-Keeps :
      (target now : ℕ) (d : Driver (Terminal p))
      → IsCoherent p d
      → contains d.sync.received_states target ≡ true
      → Keeps (IsCoherent p) (accept_latest p target now d)
  unfolding accept_latest
  accept_latest-Keeps target now d i c =
      Keeps-and_then p _ _ (held-Ends (IsCoherent p) target _ i c i) λ authoritative e1 _ i1.
        Keeps-and_then p _ _ (observe_authoritative-Keeps authoritative e1 i1)
          λ _ e2 _ i2. Keeps-pure p tt _ (activate-IsCoherent e2 i2)

  publish-IsCoherent :
      (o : Option SessionReachability) (d : Driver (Terminal p))
      → IsCoherent p d
      → IsCoherent p (publish o d)
  publish-IsCoherent none d i = i
  publish-IsCoherent (some r) d i = i

  pub publish_reachability-Keeps :
      (now : ℕ) (d : Driver (Terminal p))
      → IsCoherent p d
      → Keeps (IsCoherent p) (publish_reachability now d)
  unfolding publish_reachability
  publish_reachability-Keeps now d i =
      Keeps-and_then p _ _ (on_tracker-Keeps p (update now) d i)
        λ changed e _ c. Keeps-pure p tt _ (publish-IsCoherent changed e c)

  latest-held :
      (target : ℕ) (d : Driver (Terminal p))
      → IsCoherent p d
      → target == d.sync.remote_latest ≡ true
      → contains d.sync.received_states target ≡ true
  latest-held target d i h =
      let e : target ≡ d.sync.remote_latest = ground (arith, h) in rw e i.valid.receiver.latest_kept

  apply_plan-Keeps :
      (plan : ApplyPlan) (now : ℕ) (d : Driver (Terminal p))
      → IsCoherent p d
      → IsBacked (apply plan) d.sync
      → Keeps (IsCoherent p) (apply_plan p plan now d)
  unfolding apply_plan store_terminal
  apply_plan-Keeps plan now d i (g, held) =
      let Q = λ (e : Driver (Terminal p)). IsCoherent p e × IsIssued plan e.sync in
      Ends-and_then (λ _. Q) (λ _. IsCoherent p) _ _ (held-Ends Q plan.base_state d i held (i, g))
        λ base e1 _ q1.
          Ends-and_then (λ _. Q) (λ _. IsCoherent p) _ _
            (external-Ends Q terminal (decode_difference p.library plan.difference) e1 (λ x. tt) q1)
            λ operations e2 _ q2.
              Ends-and_then (λ _. Q) (λ _. IsCoherent p) _ _
                (external-Ends Q terminal (apply_difference p.library operations base) e2 (λ x. tt)
                  q2)
                λ next e3 _ q3.
                  Ends-and_then _ (λ _. IsCoherent p) _ _
                    (on_sync-commit_receive p plan next e3 q3.1 q3.0)
                    λ commit e4 _ i4. accepted plan.target_state now _ i4
    where
      accepted :
          (target now : ℕ) (d : Driver (Terminal p))
          → IsCoherent p d
          → Keeps
              (IsCoherent p)
              (when (target == d.sync.remote_latest) (accept_latest p target now) d)
      accepted target now d i = elim (Bool-cases (target == d.sync.remote_latest)) [
        | inl latest ↦
            rw latest (accept_latest-Keeps target now d i (latest-held target d i latest))
        | inr older ↦ rw older (Keeps-pure p tt d i)
      ]

  apply_remote-Keeps :
      (r : RemoteStateDisposition) (now : ℕ) (d : Driver (Terminal p))
      → IsCoherent p d
      → IsBacked r d.sync
      → Keeps (IsCoherent p) (apply_remote p r now d)
  apply_remote-Keeps (apply plan) now d i b = apply_plan-Keeps plan now d i b
  apply_remote-Keeps already_constructed now d i b = Keeps-pure p tt d i
  apply_remote-Keeps missing_reference now d i b = Keeps-pure p tt d i
  apply_remote-Keeps below_throwaway_floor now d i b = Keeps-pure p tt d i
  apply_remote-Keeps below_retention_window now d i b = Keeps-pure p tt d i

  note_acknowledgement-Ends :
      (Q : Driver (Terminal p) → Type 0) (now : ℕ) (d : Driver (Terminal p))
      → ((s : SendScheduler) → Q (record d { scheduler = s }))
      → Ends (λ _. Q) (on_scheduler (note_acknowledgement_needed now) d)
  note_acknowledgement-Ends Q now d q =
      Keeps-from Q _
        (from_error-IsExternal timing (note_acknowledgement_needed now d.scheduler).1 (λ e. tt))
        (q _)

  pub handle_normal_instruction-Keeps :
      (i : TransportInstruction) (elapsed : ℕ) (d : Driver (Terminal p))
      → IsCoherent p d
      → Keeps (IsCoherent p) (handle_normal_instruction p i elapsed d)
  unfolding handle_normal_instruction
  handle_normal_instruction-Keeps i elapsed d c =
      Keeps-and_then p _ _ (clock-Keeps p elapsed d c) λ now e1 _ c1.
        Ends-and_then (λ r e. IsCoherent p e × IsBacked r.remote_state e.sync) (λ _. IsCoherent p) _
          _ (on_sync-begin_receive p i e1 c1)
          λ r e2 _ q2.
            Ends-and_then (λ _ e. IsCoherent p e × IsBacked r.remote_state e.sync)
              (λ _. IsCoherent p) _ _
              (acknowledge_known-Ends p (IsBacked r.remote_state) _ q2.0 q2.1)
              λ _ e3 _ q3.
                Ends-and_then (λ _ e. IsCoherent p e × IsBacked r.remote_state e.sync)
                  (λ _. IsCoherent p) _ _
                  (note_acknowledgement-Ends (λ e. IsCoherent p e × IsBacked r.remote_state e.sync)
                    now e3 (λ s. q3))
                  λ _ e4 _ q4.
                    Keeps-and_then p _ _ (apply_remote-Keeps r.remote_state now e4 q4.0 q4.1)
                      λ _ e5 _ c5. publish_reachability-Keeps now e5 c5

  pub cleared-Agree :
      (d : Driver (Terminal p))
      → IsCoherent p d
      → Agree p d.sync d.client_history d.terminal_states (clear d.prediction).0
  cleared-Agree d c = record {
    valid = c.valid;
    numbered = c.numbered;
    stored = c.stored;
    predicts = clear-IsSound (prediction_terminal p.library) d.prediction;
  }

  pub handle_remote_shutdown-Keeps :
      (i : TransportInstruction) (d : Driver (Terminal p))
      → IsCoherent p d
      → Keeps (IsCoherent p) (handle_remote_shutdown p i d)
  unfolding handle_remote_shutdown
  handle_remote_shutdown-Keeps i d c =
      Ends-and_then (λ r e. IsCoherent p e × (contains e.sync.received_states r.base_state ≡ true))
        (λ _. IsCoherent p) _ _ (on_sync-begin_shutdown_receive p (ordinary p i d) d c)
        λ r e1 _ q1.
          Ends-and_then
            (λ _ e. IsCoherent p e × (contains e.sync.received_states r.base_state ≡ true))
            (λ _. IsCoherent p) _ _
            (acknowledge_known-Ends p (λ s. contains s.received_states r.base_state ≡ true) e1 q1.0
              q1.1)
            λ _ e2 _ q2.
              Keeps-and_then p _ _ (held-Ends (IsCoherent p) r.base_state e2 q2.0 q2.1 q2.0)
                λ base e3 _ c3.
                  Keeps-and_then p _ _
                    (external p terminal (decode_difference p.library r.difference) e3 (λ x. tt) c3)
                    λ operations e4 _ c4.
                      Keeps-and_then p _ _
                        (external p terminal (apply_difference p.library operations base) e4
                          (λ x. tt) c4)
                        λ final e5 _ c5. Keeps-pure p tt _ (cleared-Agree e5 c5)
