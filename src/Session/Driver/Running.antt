-- ===== src/Session/Driver/Running.antt =====
-- session/driver.rs: `run`, the loop of a session, one round at a time.
use mosh_client_rs.Prelude.{
  ℕ, not, Option, none, some, List, [], ◌∷◌, Unit0, Result, ok, try, leb, if◌then◌else◌, min, get,
  lift, modify, pure, reject_if, ◌>>=◌, ◌>>◌,
}
use mosh_client_rs.Fragment.Reassembly.{expire}
use mosh_client_rs.Synchronization.State.{latest_unacknowledged_sent_at_ms}
use mosh_client_rs.Timing.Rtt.{RttEstimator, smoothed_rtt_ms, frame_interval_ms}
use mosh_client_rs.Timing.Scheduler.{SchedulerPoll, pending, send, poll}
use mosh_client_rs.Prediction.State.{
  expire as expire_prediction, update_policy, next_deadline_ms as prediction_deadline_ms,
}
use mosh_client_rs.Session.Reachability.{attachment_timed_out, next_deadline_ms}
use mosh_client_rs.Session.Errors.{DriverError, reachability, connection_timeout, clock_exhausted}
use mosh_client_rs.Session.Driver.State.{
  Platform, Terminal, Driver, D, from_error, on_scheduler, on_reassembler, request_output, when,
  now_ms,
}
use mosh_client_rs.Session.Driver.Sending.{send_instruction, send_shutdown_acknowledgement}
use mosh_client_rs.Session.Driver.Receiving.{
  publish_reachability, classify_receive, handle_datagram, DatagramOutcome, continue,
  remote_shutdown,
}
use mosh_client_rs.Session.Driver.Commands.{handle_command, emit_output}
use mosh_client_rs.Session.Driver.Closing.{
  SessionExit, remote_closed, exit_cancelled, owner_dropped, Datagram, Wake, command, datagram,
  output_permit, owner_gone, wake_cancelled, graceful_close, timer, Round, Local, exits, goes_on,
  finish_graceful_close, run_local_shutdown,
}

-- Where the loop stands after a round.
pub data Progress : Type 0 where
  finished : SessionExit → Progress
  continues : Progress
  closes_locally : Progress

abbrev pub known_interval : Option ℕ → RttEstimator → Option ℕ
known_interval none e = none
known_interval (some rtt) e = some (frame_interval_ms e)

abbrev pub earlier_of : ℕ → Option ℕ → ℕ
earlier_of wake none = wake
earlier_of wake (some deadline) = min wake deadline

module _ (p : Platform) where
  -- The predictions that are too old, and the policy of their display.
  unfoldable pub tend_predictions : ℕ → D (Terminal p) Unit0
  tend_predictions now = do
    d ← get
    let (aged, dropped) = expire_prediction now d.prediction
    modify (λ e. record e { prediction = aged })
    when dropped request_output
    let timing = d.datagram_timing.estimator
    let (displayed, changed) =
        update_policy now (known_interval (smoothed_rtt_ms timing) timing) aged
    modify (λ e. record e { prediction = displayed })
    when changed request_output

  -- When the wait of a round ends at the latest.
  unfoldable pub wake_ms : (wake now : ℕ) → Driver (Terminal p) → Result DriverError ℕ
  wake_ms wake now d =
      let predicted = earlier_of wake (prediction_deadline_ms d.prediction) in
      try (from_error reachability (next_deadline_ms d.tracker)) λ reached.
        let until = earlier_of predicted reached in
        ok (if leb d.receive_not_before_ms now then until else min until d.receive_not_before_ms)

  abbrev pub after_datagram : Round → DatagramOutcome → D (Terminal p) Progress
  after_datagram r continue = pure continues
  after_datagram r remote_shutdown = do
    now ← lift (now_ms r.closing_elapsed)
    goes ← send_shutdown_acknowledgement p r.close_network now
    (if goes
        then (do
          exit ← finish_graceful_close p remote_closed r.is_cancelled_at_close r.permit
          pure (finished exit))
        else pure (finished exit_cancelled))

  abbrev pub received_datagram : Round → Option Datagram → D (Terminal p) Progress
  received_datagram r none = pure continues
  received_datagram r (some (from_server, bytes)) = do
    outcome ← handle_datagram p from_server bytes r.datagram_elapsed r.instruction_elapsed
    after_datagram r outcome

  unfoldable pub handle_wake : Round → Wake → D (Terminal p) Progress
  handle_wake r (command c) = do handle_command p c r.instruction_elapsed; pure continues
  handle_wake r (datagram result) = do
    received ← classify_receive result r.failed_elapsed
    received_datagram r received
  handle_wake r output_permit = do emit_output p; pure continues
  handle_wake r owner_gone = pure (finished owner_dropped)
  handle_wake r wake_cancelled = pure (finished exit_cancelled)
  handle_wake r graceful_close = pure closes_locally
  handle_wake r timer = pure continues

  -- The scheduler's answer: to send now, or to wait for what comes first.
  abbrev pub after_poll : Round → (now : ℕ) → SchedulerPoll → D (Terminal p) Progress
  after_poll r now (send plan) = do
    send_instruction p r.network plan now r.after_send_elapsed
    pure (if r.is_cancelled_after_send then finished exit_cancelled else continues)
  after_poll r now (pending wake) = do
    d ← get
    until ← lift (wake_ms wake now d)
    reject_if (not (r.is_representable until)) clock_exhausted
    handle_wake r r.wake

  -- A round from the time that the clock gave.
  unfoldable pub round_at : Round → (now : ℕ) → D (Terminal p) Progress
  unfolding tend_predictions
  round_at r now = do
    publish_reachability now
    d ← get
    reject_if (attachment_timed_out d.tracker now) connection_timeout
    _ ← on_reassembler (expire now)
    tend_predictions now
    e ← get
    polled ←
        on_scheduler
          (poll now e.datagram_timing.estimator (latest_unacknowledged_sent_at_ms e.sync))
    after_poll r now polled

  unfoldable pub run_round : Round → D (Terminal p) Progress
  run_round r =
      if r.is_cancelled
      then pure (finished exit_cancelled)
      else (do now ← lift (now_ms r.elapsed); round_at r now)

  -- How a run of rounds ends, or that no more rounds are given.
  abbrev pub closed_locally : Local → Option SessionExit
  closed_locally (exits exit) = some exit
  closed_locally (goes_on next) = none

  -- What follows a round: the end, the next rounds, or the local shutdown in them.
  abbrev pub unless_finished :
      (closing_elapsed : ℕ)
      → List Round
      → D (Terminal p) (Option SessionExit)
      → Progress
      → D (Terminal p) (Option SessionExit)
  unless_finished closing_elapsed rs go_on (finished exit) = pure (some exit)
  unless_finished closing_elapsed rs go_on continues = go_on
  unless_finished closing_elapsed rs go_on closes_locally = do
    closed ← run_local_shutdown p closing_elapsed rs
    pure (closed_locally closed)

  unfoldable pub run : List Round → D (Terminal p) (Option SessionExit)
  run [] = pure none
  run (r ∷ rs) = do progress ← run_round r; unless_finished r.closing_elapsed rs (run rs) progress
