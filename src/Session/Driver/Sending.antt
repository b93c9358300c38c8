-- ===== src/Session/Driver/Sending.antt =====
-- session/driver.rs: what the driver sends. The network is a parameter: by the number of a fragment,
-- whether cancellation was requested before it, and what the socket answers.
use mosh_client_rs.Prelude.{
  ℕ, zero, suc, ◌+◌, Bool, true, false, ◌&&◌, Option, none, some, List, [], ◌∷◌, Unit0, Result, ok,
  err, ok_or, ltb, ◌==◌, if◌then◌else◌, length, take, drop, max, div_ceil, checked_add, get, lift,
  modify, pure, reject_if, ◌>>=◌, ◌>>◌,
}
use mosh_client_rs.Limits.{
  max_datagram_bytes, max_fragment_body_bytes, initial_retransmission_timeout_ms,
}
use mosh_client_rs.Packet.Window.{take_sequence}
use mosh_client_rs.Packet.Codec.{client_to_server, seal}
use mosh_client_rs.Fragment.Codec.{Fragment, encode}
use mosh_client_rs.Instruction.Message.{TransportInstruction, protocol_version, shutdown_state}
use mosh_client_rs.Instruction.Encoding.{encode_zlib}
use mosh_client_rs.Synchronization.State.{
  SendPlan, SynchronizationError, no_new_state, instruction as plan_instruction,
}
use mosh_client_rs.Synchronization.Sender.{advance_local, plan_send, commit_send}
use mosh_client_rs.Timing.Datagram.{OutgoingTimestamps, outgoing}
use mosh_client_rs.Timing.Scheduler.{WakePlan, commit_send as commit_wake, defer_send}
use mosh_client_rs.Session.History.{checkpoint, remove_checkpoint, difference}
use mosh_client_rs.Session.Errors.{
  ErrorKind, io, packet, fragment, instruction, synchronization, fragment_identifier_exhausted,
  incomplete_datagram_send, from_history, is_recoverable_established_io_error,
}
use mosh_client_rs.Session.Driver.State.{
  Platform, Terminal, Driver, D, from_error, on_sync, on_scheduler, on_timing, on_sequence,
  is_active, now_ms,
}

abbrev pub initial_chaff : List ℕ
initial_chaff = 0 ∷ []

pub data TransportSendOutcome : Type 0 where
  sent cancelled deferred : TransportSendOutcome

pub record Network : Type 0 where
  pub is_cancelled : (number : ℕ) → Bool
  pub send_to : (number : ℕ) → List ℕ → Result ErrorKind ℕ

-- `chunks(MAX_FRAGMENT_BODY_BYTES)`; as much fuel as there are bytes is enough.
unfoldable pub chunks : (fuel : ℕ) → List ℕ → List (List ℕ)
chunks zero bytes = []
chunks (suc fuel) [] = []
chunks (suc fuel) (b ∷ bytes) =
    take max_fragment_body_bytes (b ∷ bytes)
    ∷ chunks fuel (drop max_fragment_body_bytes (b ∷ bytes))

module _ {S : Type 0} where
  unfoldable pub io_retry_ms : Driver S → ℕ
  io_retry_ms d =
      max d.datagram_timing.estimator.retransmission_timeout_ms initial_retransmission_timeout_ms

  -- `fragment_identifier.take()`.
  unfoldable pub take_identifier : D S ℕ
  take_identifier = do
    d ← get
    identifier ← lift (ok_or d.fragment_identifier fragment_identifier_exhausted)
    modify (λ e. record e { fragment_identifier = checked_add identifier 1 })
    pure identifier

  unfoldable pub defer_temporary_send : ℕ → D S Unit0
  unfolding io_retry_ms
  defer_temporary_send now = do d ← get; on_scheduler (defer_send now (io_retry_ms d))

  unfoldable pub advance_checkpoint : D S ℕ
  advance_checkpoint = do
    state ← on_sync advance_local
    modify (λ d. record d { client_history = checkpoint state d.client_history })
    pure state

  -- What the socket answered to a datagram, and the rest of the loop.
  unfoldable pub handed_over :
      List ℕ → Result ErrorKind ℕ → D S TransportSendOutcome → D S TransportSendOutcome
  handed_over datagram (err kind) rest d =
      if is_active d.session_state && is_recoverable_established_io_error kind
      then (d, ok deferred)
      else (d, err (io kind))
  handed_over datagram (ok count) rest d =
      let e = record d { socket = datagram ∷ d.socket } in
      if count == length datagram then rest e else (e, err incomplete_datagram_send)

  -- The plan at the current state; where there is nothing new, a state is made.
  abbrev pub plan_or_advance : ℕ → Result SynchronizationError SendPlan → D S SendPlan
  plan_or_advance now (ok plan) = pure plan
  plan_or_advance now (err no_new_state) = do
    _ ← advance_checkpoint
    d ← get
    lift (
        from_error synchronization
          (plan_send d.sync now d.datagram_timing.estimator.retransmission_timeout_ms))
  plan_or_advance now (err e) = lift (err (synchronization e))

  abbrev pub forget : Option ℕ → Driver S → Driver S
  forget none d = d
  forget (some evicted) d = record d { client_history = remove_checkpoint evicted d.client_history }

  unfoldable pub commit_plan : SendPlan → D S Unit0
  commit_plan plan = do
    commit ← on_sync (commit_send plan)
    modify (forget commit.capacity_evicted_state)

-- The fragment that carries a piece of an instruction.
abbrev pub fragment_of : OutgoingTimestamps → (identifier count number : ℕ) → List ℕ → Fragment
fragment_of t identifier count number body = record {
  timestamp = t.timestamp;
  timestamp_reply = t.timestamp_reply;
  identifier = identifier;
  number = number;
  is_final = number + 1 == count;
  body = body;
}

module _ (p : Platform) (n : Network) where
  -- The loop of `send_transport_instruction` from a fragment on.
  unfoldable pub send_fragments :
      OutgoingTimestamps
      → (identifier count number : ℕ) → List (List ℕ)
      → D (Terminal p) TransportSendOutcome
  unfolding handed_over
  send_fragments t identifier count number [] = pure sent
  send_fragments t identifier count number (body ∷ bodies) =
      let rest = send_fragments t identifier count (suc number) bodies in
      if n.is_cancelled number then pure cancelled else (do
        reject_if (ltb 65535 number) fragment_identifier_exhausted
        plaintext ← lift (
            from_error fragment
              (encode (fragment_of t identifier count number body) max_datagram_bytes))
        sequence ← on_sequence take_sequence
        datagram ← lift (
            from_error packet
              (seal p.crypto client_to_server sequence plaintext max_datagram_bytes))
        handed_over datagram (n.send_to number datagram) rest)

  unfoldable pub send_transport_instruction :
      TransportInstruction → (now : ℕ) → D (Terminal p) TransportSendOutcome
  unfolding take_identifier send_fragments
  send_transport_instruction i now = do
    compressed ← lift (from_error instruction (encode_zlib p.wire i))
    timestamps ← on_timing (outgoing now)
    identifier ← take_identifier
    send_fragments timestamps identifier (div_ceil (length compressed) max_fragment_body_bytes) 0
        (chunks (length compressed) compressed)

  -- The end of `send_instruction`; `elapsed` is the clock after a failure.
  abbrev pub after_send :
      (plan : SendPlan) → WakePlan → (elapsed : ℕ) → TransportSendOutcome → D (Terminal p) Unit0
  after_send plan wake elapsed sent = do commit_plan plan; on_scheduler (commit_wake wake)
  after_send plan wake elapsed cancelled = pure tt
  after_send plan wake elapsed deferred = do
    failed_at ← lift (now_ms elapsed)
    defer_temporary_send failed_at

  unfoldable pub send_instruction : WakePlan → (now elapsed : ℕ) → D (Terminal p) Unit0
  send_instruction wake now elapsed = do
    d ← get
    plan ←
        plan_or_advance now
          (plan_send d.sync now d.datagram_timing.estimator.retransmission_timeout_ms)
    e ← get
    difference ← lift (
        from_error from_history
          (difference p.wire e.client_history plan.base_state plan.target_state))
    outcome ← send_transport_instruction (plan_instruction plan difference initial_chaff) now
    after_send plan wake elapsed outcome

  abbrev pub after_acknowledgement : SendPlan → TransportSendOutcome → D (Terminal p) Bool
  after_acknowledgement plan sent = do commit_plan plan; pure true
  after_acknowledgement plan cancelled = pure false
  after_acknowledgement plan deferred = pure true

  -- The acknowledgement names the shutdown state instead of a remote one.
  unfoldable pub send_shutdown_acknowledgement : (now : ℕ) → D (Terminal p) Bool
  send_shutdown_acknowledgement now = do
    _ ← advance_checkpoint
    d ← get
    plan ← lift (
        from_error synchronization
          (plan_send d.sync now d.datagram_timing.estimator.retransmission_timeout_ms))
    difference ← lift (
        from_error from_history
          (difference p.wire d.client_history plan.base_state plan.target_state))
    outcome ←
        send_transport_instruction
          (record (plan_instruction plan difference initial_chaff) {
            acknowledged_state = shutdown_state;
          })
          now
    after_acknowledgement plan outcome

  unfoldable pub send_shutdown_request : (now : ℕ) → D (Terminal p) TransportSendOutcome
  send_shutdown_request now = do
    d ← get
    difference ← lift (
        from_error from_history
          (difference p.wire d.client_history d.sync.known_receiver_state d.sync.local_latest))
    send_transport_instruction
        (record {
          version = protocol_version;
          base_state = d.sync.known_receiver_state;
          new_state = shutdown_state;
          acknowledged_state = d.sync.remote_latest;
          discard_before_state = d.sync.known_receiver_state;
          state_difference = difference;
          chaff = initial_chaff;
        })
        now
