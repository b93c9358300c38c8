-- ===== src/Session/Driver/Closing.antt =====
-- session/driver.rs: the end of a session, `finish_graceful_close` and `run_local_shutdown`.
use mosh_client_rs.Prelude.{
  ℕ, Bool, true, false, not, ◌||◌, Option, none, some, List, [], ◌∷◌, Result, ok, ok_or, leb, ◌==◌,
  if◌then◌else◌, min, checked_add, get, lift, pure, reject_if, ◌>>=◌, ◌>>◌,
}
use mosh_client_rs.Limits.{graceful_close_ack_timeout_ms}
use mosh_client_rs.Instruction.Message.{TransportInstruction, is_shutdown, shutdown_state}
use mosh_client_rs.Session.Errors.{ErrorKind, clock_exhausted}
use mosh_client_rs.Session.Driver.State.{Platform, Terminal, Driver, D, now_ms}
use mosh_client_rs.Session.Driver.Sending.{
  TransportSendOutcome, sent, cancelled, deferred, Network, io_retry_ms, send_shutdown_request,
  send_shutdown_acknowledgement,
}
use mosh_client_rs.Session.Driver.Receiving.{
  classify_receive, decode_datagram, handle_normal_instruction, handle_remote_shutdown, ordinary,
}
use mosh_client_rs.Session.Driver.Commands.{SessionCommand, handle_command, emit_output}

pub data SessionExit : Type 0 where
  local_closed remote_closed exit_cancelled owner_dropped : SessionExit

-- What the wait for a permit to send output ends with.
pub data Permit : Type 0 where
  granted cancel_changed canceller_dropped consumer_dropped : Permit

-- A datagram, with whether it comes from the server's address.
abbrev pub Datagram : Type 0
Datagram = Bool × List ℕ

pub data Wake : Type 0 where
  command : SessionCommand → Wake
  datagram : Result ErrorKind Datagram → Wake
  output_permit owner_gone wake_cancelled graceful_close timer : Wake

-- What one round of a loop meets: the flag of cancellation, the clock, the network, what the wait
-- ends with, and the clock each further time that it is read.
pub record Round : Type 0 where
  pub is_cancelled : Bool
  pub elapsed : ℕ
  pub network : Network
  pub after_send_elapsed : ℕ
  pub is_cancelled_after_send : Bool
  pub wake : Wake
  pub failed_elapsed : ℕ
  pub datagram_elapsed : ℕ
  pub instruction_elapsed : ℕ
  pub closing_elapsed : ℕ
  pub close_network : Network
  pub is_cancelled_at_close : Bool
  pub permit : Permit
  -- Whether an `Instant` can hold the time so many milliseconds after the start.
  pub is_representable : ℕ → Bool

-- Where the local loop stands after a round: at its end, or with the time of the next request.
pub data Local : Type 0 where
  exits : SessionExit → Local
  goes_on : (next_send_ms : ℕ) → Local

module _ (p : Platform) where
  abbrev pub end_with : SessionExit → Permit → D (Terminal p) SessionExit
  end_with exit granted = do emit_output p; pure exit
  end_with exit cancel_changed = pure exit_cancelled
  end_with exit canceller_dropped = pure owner_dropped
  end_with exit consumer_dropped = pure owner_dropped

  unfoldable pub finish_graceful_close :
      SessionExit → (is_cancelled : Bool) → Permit → D (Terminal p) SessionExit
  finish_graceful_close exit is_cancelled permit d =
      if not d.output_requested
      then (d, ok exit)
      else if is_cancelled
      then (d, ok exit_cancelled)
      else end_with exit permit d

  -- The next time to send, after a request.
  abbrev pub next_send : (now failed_elapsed : ℕ) → TransportSendOutcome → D (Terminal p) Local
  next_send now failed_elapsed sent = do
    d ← get
    next ← lift (
        ok_or (checked_add now d.datagram_timing.estimator.retransmission_timeout_ms)
          clock_exhausted)
    pure (goes_on next)
  next_send now failed_elapsed cancelled = pure (exits exit_cancelled)
  next_send now failed_elapsed deferred = do
    failed_at ← lift (now_ms failed_elapsed)
    d ← get
    next ← lift (ok_or (checked_add failed_at (io_retry_ms d)) clock_exhausted)
    pure (goes_on next)

  unfoldable pub request_if_due : Round → (now next_send_ms : ℕ) → D (Terminal p) Local
  request_if_due r now next_send_ms =
      if leb next_send_ms now
      then (do
        outcome ← send_shutdown_request p r.network now
        next_send now r.after_send_elapsed outcome)
      else pure (goes_on next_send_ms)

  abbrev pub is_some : Option (Terminal p) → Bool
  is_some none = false
  is_some (some s) = true

  abbrev pub close_or_go_on :
      Round → (acknowledged : Bool) → (next_send_ms : ℕ) → D (Terminal p) Local
  close_or_go_on r acknowledged next_send_ms d =
      if acknowledged || is_some d.final_terminal
      then (do
        exit ← finish_graceful_close local_closed r.is_cancelled_at_close r.permit
        pure (exits exit))
          d
      else (d, ok (goes_on next_send_ms))

  -- An instruction while the local side closes.
  unfoldable pub handle_closing_instruction :
      Round → TransportInstruction → (next_send_ms : ℕ) → D (Terminal p) Local
  handle_closing_instruction r i next_send_ms =
      let acknowledged = i.acknowledged_state == shutdown_state in
      if is_shutdown i
      then (do
        handle_remote_shutdown p i
        now ← lift (now_ms r.closing_elapsed)
        goes ← send_shutdown_acknowledgement p r.close_network now
        (if goes then close_or_go_on r acknowledged next_send_ms else pure (exits exit_cancelled)))
      else (do
        d ← get
        handle_normal_instruction p (ordinary p i d) r.instruction_elapsed
        close_or_go_on r acknowledged next_send_ms)

  abbrev pub closing_instruction :
      Round → Option TransportInstruction → (next_send_ms : ℕ) → D (Terminal p) Local
  closing_instruction r none next_send_ms = pure (goes_on next_send_ms)
  closing_instruction r (some i) next_send_ms = handle_closing_instruction r i next_send_ms

  abbrev pub closing_datagram : Round → Option Datagram → (next_send_ms : ℕ) → D (Terminal p) Local
  closing_datagram r none next_send_ms = pure (goes_on next_send_ms)
  closing_datagram r (some (from_server, bytes)) next_send_ms = do
    i ← decode_datagram p from_server bytes r.datagram_elapsed
    closing_instruction r i next_send_ms

  unfoldable pub handle_closing_wake : Round → Wake → (next_send_ms : ℕ) → D (Terminal p) Local
  handle_closing_wake r (command c) next_send_ms = do
    handle_command p c r.instruction_elapsed
    pure (goes_on next_send_ms)
  handle_closing_wake r (datagram result) next_send_ms = do
    received ← classify_receive result r.failed_elapsed
    closing_datagram r received next_send_ms
  handle_closing_wake r output_permit next_send_ms = do emit_output p; pure (goes_on next_send_ms)
  handle_closing_wake r owner_gone next_send_ms = pure (exits owner_dropped)
  handle_closing_wake r wake_cancelled next_send_ms = pure (exits exit_cancelled)
  handle_closing_wake r graceful_close next_send_ms = pure (goes_on next_send_ms)
  handle_closing_wake r timer next_send_ms = pure (goes_on next_send_ms)

  -- When the wait of a round ends at the latest.
  unfoldable pub local_wake_ms : (deadline_ms next_send_ms now : ℕ) → Driver (Terminal p) → ℕ
  local_wake_ms deadline_ms next_send_ms now d =
      if leb d.receive_not_before_ms now
      then min next_send_ms deadline_ms
      else min (min next_send_ms deadline_ms) d.receive_not_before_ms

  -- The wait, after the request.
  abbrev pub local_wait : (deadline_ms now : ℕ) → Round → Local → D (Terminal p) Local
  local_wait deadline_ms now r (exits exit) = pure (exits exit)
  local_wait deadline_ms now r (goes_on next_send_ms) = do
    d ← get
    reject_if (not (r.is_representable (local_wake_ms deadline_ms next_send_ms now d)))
        clock_exhausted
    handle_closing_wake r r.wake next_send_ms

  -- A round from the time that the clock gave.
  unfoldable pub local_round_at : (deadline_ms next_send_ms now : ℕ) → Round → D (Terminal p) Local
  local_round_at deadline_ms next_send_ms now r =
      if leb deadline_ms now then pure (exits local_closed) else (do
        requested ← request_if_due r now next_send_ms
        local_wait deadline_ms now r requested)

  -- One round of the loop of `run_local_shutdown`.
  unfoldable pub local_round : (deadline_ms next_send_ms : ℕ) → Round → D (Terminal p) Local
  local_round deadline_ms next_send_ms r =
      if r.is_cancelled
      then pure (exits exit_cancelled)
      else (do now ← lift (now_ms r.elapsed); local_round_at deadline_ms next_send_ms now r)

  abbrev pub unless_exits :
      Local → ((next_send_ms : ℕ) → D (Terminal p) Local) → D (Terminal p) Local
  unless_exits (exits exit) go_on = pure (exits exit)
  unless_exits (goes_on next) go_on = go_on next

  -- Rounds until the loop exits, or until no more are given.
  unfoldable pub local_rounds : (deadline_ms next_send_ms : ℕ) → List Round → D (Terminal p) Local
  local_rounds deadline_ms next_send_ms [] = pure (goes_on next_send_ms)
  local_rounds deadline_ms next_send_ms (r ∷ rs) = do
    stood ← local_round deadline_ms next_send_ms r
    unless_exits stood (λ next. local_rounds deadline_ms next rs)

  unfoldable pub run_local_shutdown : (elapsed : ℕ) → List Round → D (Terminal p) Local
  run_local_shutdown elapsed rounds = do
    started ← lift (now_ms elapsed)
    deadline ← lift (ok_or (checked_add started graceful_close_ack_timeout_ms) clock_exhausted)
    local_rounds deadline started rounds
