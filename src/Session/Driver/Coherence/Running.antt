-- ===== src/Session/Driver/Coherence/Running.antt =====
-- The driver from its connection to any of its ends.
use mosh_client_rs.Prelude.{
  ℕ, Bool, not, true, false, Option, none, some, List, [], ◌∷◌, pure, Result-cases, Bool-cases, inl,
  inr, if◌then◌else◌, ◌>>=◌,
}
use mosh_client_rs.Instruction.Termination.{ConsumesInput}
use mosh_client_rs.Fragment.Reassembly.{expire}
use mosh_client_rs.Synchronization.State.{latest_unacknowledged_sent_at_ms}
use mosh_client_rs.Timing.Rtt.{smoothed_rtt_ms}
use mosh_client_rs.Timing.Scheduler.{SchedulerPoll, pending, send, poll}
use mosh_client_rs.Prediction.State.{
  TerminalInterface, Prediction, expire as expire_prediction, update_policy, reached,
  expiration_deadline_ms, is_adaptive,
}
use mosh_client_rs.Prediction.Soundness.{IsSound, clear-IsSound}
use mosh_client_rs.Session.Reachability.{attachment_timed_out, next_deadline_ms}
use mosh_client_rs.Session.Errors.{connection_timeout, clock_exhausted}
use mosh_client_rs.Session.Driver.State.{
  Platform, Terminal, Driver, D, when, request_output, prediction_terminal,
}
use mosh_client_rs.Session.Driver.Receiving.{DatagramOutcome, continue, remote_shutdown}
use mosh_client_rs.Session.Driver.Closing.{
  SessionExit, remote_closed, exit_cancelled, Datagram, Wake, command, datagram, output_permit,
  owner_gone, wake_cancelled, graceful_close, timer, Round, finish_graceful_close,
}
use mosh_client_rs.Session.Driver.Running.{
  Progress, finished, continues, closes_locally, known_interval, tend_predictions, wake_ms,
  after_datagram, received_datagram, handle_wake, after_poll, round_at, run_round, unless_finished,
  run,
}
use mosh_client_rs.Session.Driver.Outcome.{IsExternalResult, Keeps}
use mosh_client_rs.Session.Driver.Coherence.{
  IsCoherent, Keeps-and_then, Keeps-pure, lift-Keeps, when-Keeps, reject_if-Keeps,
  on_reassembler-Keeps, on_scheduler-Keeps,
}
use mosh_client_rs.Session.Driver.Coherence.Sending.{
  clock-Keeps, send_instruction-Keeps, send_shutdown_acknowledgement-Keeps,
}
use mosh_client_rs.Session.Driver.Coherence.Receiving.{publish_reachability-Keeps}
use mosh_client_rs.Session.Driver.Coherence.Datagrams.{
  classify_receive-Keeps, handle_datagram-Keeps,
}
use mosh_client_rs.Session.Driver.Coherence.Commands.{handle_command-Keeps, emit_output-Keeps}
use mosh_client_rs.Session.Driver.Coherence.Closing.{finish_graceful_close-Keeps}
use mosh_client_rs.Session.Driver.Coherence.Locally.{run_local_shutdown-Keeps}

module _ (t : TerminalInterface) where
  expire-IsSound :
      (now : ℕ) (q : Prediction t) → IsSound t q → IsSound t (expire_prediction now q).0
  unfolding expire_prediction
  expire-IsSound now q i = elim (Bool-cases (reached (expiration_deadline_ms q) now)) [
    | inl old ↦ rw old (clear-IsSound t q)
    | inr fresh ↦ rw fresh i
  ]

  update_policy-IsSound :
      (now : ℕ) (frame : Option ℕ) (q : Prediction t)
      → IsSound t q
      → IsSound t (update_policy now frame q).0
  unfolding update_policy
  update_policy-IsSound now frame q i = elim (Bool-cases (is_adaptive q.mode)) [
    | inl adapts ↦ rw adapts (record {
      pending_le = i.pending_le;
      none_if_never = i.none_if_never;
      projects = i.projects;
    })
    | inr fixed ↦ rw fixed i
  ]

module _ (p : Platform) where
  tend_predictions-Keeps :
      (now : ℕ) (d : Driver (Terminal p))
      → IsCoherent p d
      → Keeps (IsCoherent p) (tend_predictions p now d)
  unfolding tend_predictions
  tend_predictions-Keeps now d i =
      let t = prediction_terminal p.library in
      let frame =
        known_interval (smoothed_rtt_ms d.datagram_timing.estimator) d.datagram_timing.estimator in
      let aged = expire-IsSound t now d.prediction i.predicts in
      let shown = update_policy-IsSound t now frame (expire_prediction now d.prediction).0 aged in
      Keeps-and_then p _ _
        (asked (expire_prediction now d.prediction).1 _
          (record { valid = i.valid; numbered = i.numbered; stored = i.stored; predicts = aged }))
        λ _ e1 _ c1.
          asked (update_policy now frame (expire_prediction now d.prediction).0).1
            (record e1 {
              prediction = (update_policy now frame (expire_prediction now d.prediction).0).0;
            })
            (record {
              valid = c1.valid;
              numbered = c1.numbered;
              stored = c1.stored;
              predicts = shown;
            })
    where
      asked :
          (b : Bool) (e : Driver (Terminal p))
          → IsCoherent p e
          → Keeps (IsCoherent p) (when b request_output e)
      asked b e c = when-Keeps p b request_output e c (Keeps-pure p tt _ c)

  module _ (w : ConsumesInput p.wire) where
    after_goodbye-Keeps :
        (r : Round) (goes : Bool) (d : Driver (Terminal p))
        → IsCoherent p d
        → Keeps (IsCoherent p) (
            (if goes
                then (finish_graceful_close p remote_closed r.is_cancelled_at_close r.permit
                    >>= λ exit. pure (finished exit))
                else pure (finished exit_cancelled))
              d)
    after_goodbye-Keeps r true d i =
        Keeps-and_then p _ _
          (finish_graceful_close-Keeps p remote_closed r.is_cancelled_at_close r.permit d i)
          λ exit e _ c. Keeps-pure p _ e c
    after_goodbye-Keeps r false d i = Keeps-pure p _ d i

    after_datagram-Keeps :
        (r : Round) (o : DatagramOutcome) (d : Driver (Terminal p))
        → IsCoherent p d
        → Keeps (IsCoherent p) (after_datagram p r o d)
    after_datagram-Keeps r continue d i = Keeps-pure p _ d i
    after_datagram-Keeps r remote_shutdown d i =
        Keeps-and_then p _ _ (clock-Keeps p r.closing_elapsed d i) λ now e1 _ c1.
          Keeps-and_then p _ _ (send_shutdown_acknowledgement-Keeps p r.close_network now e1 c1)
            λ goes e2 _ c2. after_goodbye-Keeps r goes e2 c2

    received_datagram-Keeps :
        (r : Round) (o : Option Datagram) (d : Driver (Terminal p))
        → IsCoherent p d
        → Keeps (IsCoherent p) (received_datagram p r o d)
    received_datagram-Keeps r none d i = Keeps-pure p _ d i
    received_datagram-Keeps r (some (from_server, bytes)) d i =
        Keeps-and_then p _ _
          (handle_datagram-Keeps p w from_server bytes r.datagram_elapsed r.instruction_elapsed d i)
          λ outcome e _ c. after_datagram-Keeps r outcome e c

    handle_wake-Keeps :
        (r : Round) (x : Wake) (d : Driver (Terminal p))
        → IsCoherent p d
        → Keeps (IsCoherent p) (handle_wake p r x d)
    unfolding handle_wake
    handle_wake-Keeps r (command c) d i =
        Keeps-and_then p _ _ (handle_command-Keeps p c r.instruction_elapsed d i)
          λ _ e _ k. Keeps-pure p _ e k
    handle_wake-Keeps r (datagram result) d i =
        Keeps-and_then p _ _ (classify_receive-Keeps p result r.failed_elapsed d i)
          λ received e _ c. received_datagram-Keeps r received e c
    handle_wake-Keeps r output_permit d i =
        Keeps-and_then p _ _ (emit_output-Keeps p d i) λ _ e _ k. Keeps-pure p _ e k
    handle_wake-Keeps r owner_gone d i = Keeps-pure p _ d i
    handle_wake-Keeps r wake_cancelled d i = Keeps-pure p _ d i
    handle_wake-Keeps r graceful_close d i = Keeps-pure p _ d i
    handle_wake-Keeps r timer d i = Keeps-pure p _ d i

    wake_ms-IsExternal :
        (wake now : ℕ) (d : Driver (Terminal p)) → IsExternalResult (wake_ms p wake now d)
    unfolding wake_ms
    wake_ms-IsExternal wake now d = elim (Result-cases (next_deadline_ms d.tracker)) [
      | inl (deadline, e) ↦ rw e tt
      | inr (x, e) ↦ rw e tt
    ]

    after_poll-Keeps :
        (r : Round) (now : ℕ) (polled : SchedulerPoll) (d : Driver (Terminal p))
        → IsCoherent p d
        → Keeps (IsCoherent p) (after_poll p r now polled d)
    after_poll-Keeps r now (send plan) d i =
        Keeps-and_then p _ _ (send_instruction-Keeps p r.network plan now r.after_send_elapsed d i)
          λ _ e _ c. Keeps-pure p _ e c
    after_poll-Keeps r now (pending wake) d i =
        Keeps-and_then p _ _
          (lift-Keeps p (wake_ms p wake now d) d (wake_ms-IsExternal wake now d) i)
          λ until e _ c.
            Keeps-and_then p _ _
              (reject_if-Keeps p (not (r.is_representable until)) clock_exhausted e tt c)
              λ _ f _ k. handle_wake-Keeps r r.wake f k

    round_at-Keeps :
        (r : Round) (now : ℕ) (d : Driver (Terminal p))
        → IsCoherent p d
        → Keeps (IsCoherent p) (round_at p r now d)
    unfolding round_at
    round_at-Keeps r now d i =
        Keeps-and_then p _ _ (publish_reachability-Keeps p now d i) λ _ e1 _ c1.
          Keeps-and_then p _ _
            (reject_if-Keeps p (attachment_timed_out e1.tracker now) connection_timeout e1 tt c1)
            λ _ e2 _ c2.
              Keeps-and_then p _ _ (on_reassembler-Keeps p (expire now) e2 c2) λ _ e3 _ c3.
                Keeps-and_then p _ _ (tend_predictions-Keeps now e3 c3) λ _ e4 _ c4.
                  Keeps-and_then p _ _
                    (on_scheduler-Keeps p
                      (poll now e4.datagram_timing.estimator
                        (latest_unacknowledged_sent_at_ms e4.sync))
                      e4 c4)
                    λ polled e5 _ c5. after_poll-Keeps r now polled e5 c5

    run_round-Keeps :
        (r : Round) (d : Driver (Terminal p))
        → IsCoherent p d
        → Keeps (IsCoherent p) (run_round p r d)
    unfolding run_round
    run_round-Keeps r d i = elim (Bool-cases r.is_cancelled) [
      | inl stop ↦ rw stop (Keeps-pure p _ d i)
      | inr go_on ↦
          rw go_on (
            Keeps-and_then p _ _ (clock-Keeps p r.elapsed d i)
              λ now e _ c. round_at-Keeps _ now e c)
    ]

    unless_finished-Keeps :
        (closing_elapsed : ℕ) (rs : List Round) (go_on : D (Terminal p) (Option SessionExit))
        (progress : Progress)
        → ((e : Driver (Terminal p)) → IsCoherent p e → Keeps (IsCoherent p) (go_on e))
        → (d : Driver (Terminal p)) → IsCoherent p d
        → Keeps (IsCoherent p) (unless_finished p closing_elapsed rs go_on progress d)
    unless_finished-Keeps closing_elapsed rs go_on (finished exit) k d i = Keeps-pure p _ d i
    unless_finished-Keeps closing_elapsed rs go_on continues k d i = k d i
    unless_finished-Keeps closing_elapsed rs go_on closes_locally k d i =
        Keeps-and_then p _ _ (run_local_shutdown-Keeps p w closing_elapsed rs d i)
          λ closed e _ c. Keeps-pure p _ e c

    pub run-Keeps :
        (rs : List Round) (d : Driver (Terminal p))
        → IsCoherent p d
        → Keeps (IsCoherent p) (run p rs d)
    unfolding run
    run-Keeps [] d i = Keeps-pure p _ d i
    run-Keeps (r ∷ rs) d i = Keeps-and_then p _ _ (run_round-Keeps r d i) λ progress e _ c.
        unless_finished-Keeps r.closing_elapsed rs (run p rs) progress (λ f k. run-Keeps rs f k) e c
