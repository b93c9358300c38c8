-- ===== src/Session/Driver/Receiving.antt =====
-- session/driver.rs: what the driver does with what it receives.
use mosh_client_rs.Prelude.{
  ℕ, Bool, true, false, ◌&&◌, Option, none, some, List, Unit0, Result, ok, err, ok_or, leb, ◌==◌,
  if◌then◌else◌, checked_add, retain, get, lift, modify, pure, ◌>>=◌, ◌>>◌,
}
use mosh_client_rs.Packet.Window.{
  PacketError, datagram_too_short, datagram_too_large, plaintext_too_large, output_too_small,
  invalid_sequence, wrong_direction, authentication_failed, replay, too_old, sequence_exhausted,
  unexpected_source,
}
use mosh_client_rs.Packet.Codec.{OpenedPacket, receive_from}
use mosh_client_rs.Fragment.Codec.{decode}
use mosh_client_rs.Fragment.Reassembly.{ReassemblyOutcome, pending, duplicate, complete, push}
use mosh_client_rs.Instruction.Message.{
  TransportInstruction, InstructionError, is_shutdown, shutdown_state,
}
use mosh_client_rs.Instruction.Encoding.{decode_zlib}
use mosh_client_rs.Synchronization.State.{
  AcknowledgementDisposition, advanced, current, stale, unknown, RemoteStateDisposition, apply,
  already_constructed, missing_reference, below_throwaway_floor, below_retention_window, ApplyPlan,
  ReceiveCommit, sent_state_sent_at_ms,
}
use mosh_client_rs.Synchronization.Receiver.{begin_receive, begin_shutdown_receive, commit_receive}
use mosh_client_rs.Timing.Datagram.{observe_received}
use mosh_client_rs.Timing.Scheduler.{note_acknowledgement_needed}
use mosh_client_rs.Terminal.Difference.{decode as decode_difference}
use mosh_client_rs.Terminal.State.{apply as apply_difference}
use mosh_client_rs.Prediction.State.{clear, observe_authoritative}
use mosh_client_rs.Session.Reachability.{
  SessionReachability, ReachabilityTracker, note_contact, note_reply, update,
}
use mosh_client_rs.Session.History.{acknowledge}
use mosh_client_rs.Session.Errors.{
  ErrorKind, DriverError, io, packet, fragment, instruction, terminal, missing_terminal_state,
  clock_exhausted, panicked, is_recoverable_established_io_error,
}
use mosh_client_rs.Session.Driver.State.{
  Platform, Terminal, Driver, D, TerminalMap, lookup_terminal, insert_terminal, remove_terminal,
  prediction_terminal, from_error, on_sync, on_scheduler, on_timing, on_history, on_reassembler,
  on_tracker, on_prediction, request_output, when, is_active, is_connecting, active, now_ms,
}
use mosh_client_rs.Session.Driver.Sending.{io_retry_ms}

-- The datagrams that are dropped without a word.
unfoldable pub is_dropped : PacketError → Bool
is_dropped datagram_too_short = true
is_dropped datagram_too_large = true
is_dropped wrong_direction = true
is_dropped authentication_failed = true
is_dropped replay = true
is_dropped too_old = true
is_dropped unexpected_source = true
is_dropped plaintext_too_large = false
is_dropped output_too_small = false
is_dropped invalid_sequence = false
is_dropped sequence_exhausted = false

-- An answer of `decode_zlib`, whose fuel does not run out.
abbrev pub from_fuel : {A : Type 0} → Option (Result InstructionError A) → Result DriverError A
from_fuel none = err panicked
from_fuel (some r) = from_error instruction r

pub data DatagramOutcome : Type 0 where
  continue remote_shutdown : DatagramOutcome

-- The tracker notes the time of the state that an acknowledgement advanced to.
abbrev pub reply_noted :
    AcknowledgementDisposition → (sent_at : Option ℕ) → ReachabilityTracker → ReachabilityTracker
reply_noted (advanced from to) (some sent_at) t = note_reply sent_at t
reply_noted (advanced from to) none t = t
reply_noted current sent_at t = t
reply_noted stale sent_at t = t
reply_noted unknown sent_at t = t

module _ {S : Type 0} where
  unfoldable pub defer_receive : ℕ → D S Unit0
  unfolding io_retry_ms
  defer_receive now = do
    d ← get
    not_before ← lift (ok_or (checked_add now (io_retry_ms d)) clock_exhausted)
    modify (λ e. record e { receive_not_before_ms = not_before })

  -- `Some` is a datagram to handle; `elapsed` is the clock after a failure.
  unfoldable pub classify_receive :
      {A : Type 0} → Result ErrorKind A → (elapsed : ℕ) → D S (Option A)
  unfolding defer_receive
  classify_receive (ok received) elapsed d =
      (record d { receive_not_before_ms = 0 }, ok (some received))
  classify_receive (err kind) elapsed d =
      if is_active d.session_state && is_recoverable_established_io_error kind
      then (do failed_at ← lift (now_ms elapsed); defer_receive failed_at; pure none) d
      else (d, err (io kind))

  abbrev pub publish : Option SessionReachability → Driver S → Driver S
  publish none d = d
  publish (some r) d = record d { published = r }

  unfoldable pub publish_reachability : ℕ → D S Unit0
  publish_reachability now = do changed ← on_tracker (update now); modify (publish changed)

  abbrev removed : Option ℕ → TerminalMap S → TerminalMap S
  removed none m = m
  removed (some evicted) m = remove_terminal evicted m

  unfoldable pub discard_terminal_states :
      (floor : ℕ) → (capacity_evicted : Option ℕ) → TerminalMap S → TerminalMap S
  discard_terminal_states floor evicted m = removed evicted (retain (λ e. leb floor e.0) m)

  -- The new terminal state, and what its commit discards.
  unfoldable pub store_terminal : (target : ℕ) → S → ReceiveCommit → Driver S → Driver S
  unfolding discard_terminal_states
  store_terminal target next commit d = record d {
    terminal_states =
        discard_terminal_states commit.discard_before_state commit.capacity_evicted_state
          (insert_terminal target next d.terminal_states);
  }

  abbrev pub activate : Driver S → Driver S
  activate d = if is_connecting d.session_state then record d { session_state = active } else d

  -- `known_receiver_state` of the synchronization state is what the history may forget up to.
  unfoldable pub acknowledge_known : D S Unit0
  acknowledge_known = do d ← get; on_history (acknowledge d.sync.known_receiver_state)

module _ (p : Platform) where
  unfoldable pub accept_latest : (target now : ℕ) → D (Terminal p) Unit0
  accept_latest target now = do
    modify (λ d. record d { tracker = note_contact now d.tracker })
    d ← get
    authoritative ← lift (ok_or (lookup_terminal target d.terminal_states) missing_terminal_state)
    on_prediction (observe_authoritative (prediction_terminal p.library) authoritative)
    modify activate
    request_output

  unfoldable pub apply_plan : ApplyPlan → (now : ℕ) → D (Terminal p) Unit0
  apply_plan plan now = do
    d ← get
    base ← lift (ok_or (lookup_terminal plan.base_state d.terminal_states) missing_terminal_state)
    operations ← lift (from_error terminal (decode_difference p.library plan.difference))
    next ← lift (from_error terminal (apply_difference p.library operations base))
    commit ← on_sync (commit_receive plan)
    modify (store_terminal plan.target_state next commit)
    e ← get
    when (plan.target_state == e.sync.remote_latest) (accept_latest plan.target_state now)

  abbrev pub apply_remote : RemoteStateDisposition → (now : ℕ) → D (Terminal p) Unit0
  apply_remote (apply plan) now = apply_plan plan now
  apply_remote already_constructed now = pure tt
  apply_remote missing_reference now = pure tt
  apply_remote below_throwaway_floor now = pure tt
  apply_remote below_retention_window now = pure tt

  unfoldable pub handle_normal_instruction :
      TransportInstruction → (elapsed : ℕ) → D (Terminal p) Unit0
  handle_normal_instruction i elapsed = do
    now ← lift (now_ms elapsed)
    d ← get
    transition ← on_sync (begin_receive i)
    modify (λ e. record e {
      tracker =
          reply_noted transition.acknowledgement (sent_state_sent_at_ms d.sync i.acknowledged_state)
            e.tracker;
    })
    acknowledge_known
    on_scheduler (note_acknowledgement_needed now)
    apply_remote transition.remote_state now
    publish_reachability now

  -- An acknowledgement of the shutdown stands for the state that is known.
  abbrev pub ordinary : TransportInstruction → Driver (Terminal p) → TransportInstruction
  ordinary i d =
      if i.acknowledged_state == shutdown_state
      then record i { acknowledged_state = d.sync.known_receiver_state }
      else i

  unfoldable pub handle_remote_shutdown : TransportInstruction → D (Terminal p) Unit0
  handle_remote_shutdown i = do
    d ← get
    transition ← on_sync (begin_shutdown_receive (ordinary i d))
    acknowledge_known
    e ← get
    base ←
        lift
          (ok_or (lookup_terminal transition.base_state e.terminal_states) missing_terminal_state)
    operations ← lift (from_error terminal (decode_difference p.library transition.difference))
    final ← lift (from_error terminal (apply_difference p.library operations base))
    modify (λ f. record f {
      final_terminal = some final;
      prediction = (clear f.prediction).0;
      output_requested = true;
    })

  -- The instruction of the outcome of a push, once it is complete.
  abbrev pub completed : ReassemblyOutcome → D (Terminal p) (Option TransportInstruction)
  completed pending = pure none
  completed duplicate = pure none
  completed (complete compressed) = do
    i ← lift (from_fuel (decode_zlib p.wire compressed))
    pure (some i)

  unfoldable pub read_packet :
      OpenedPacket → (now : ℕ) → D (Terminal p) (Option TransportInstruction)
  read_packet opened now = do
    f ← lift (from_error fragment (decode opened.plaintext))
    _ ← on_timing (observe_received opened.sequence f.timestamp f.timestamp_reply now)
    outcome ← on_reassembler (push now f)
    completed outcome

  abbrev pub after_open :
      Result PacketError OpenedPacket → (now : ℕ) → D (Terminal p) (Option TransportInstruction)
  after_open (ok opened) now = read_packet opened now
  after_open (err e) now = if is_dropped e then pure none else lift (err (packet e))

  -- The datagram, and whether it comes from the server's address.
  unfoldable pub decode_datagram :
      (from_server : Bool) → List ℕ → (elapsed : ℕ) → D (Terminal p) (Option TransportInstruction)
  decode_datagram from_server datagram elapsed = do
    now ← lift (now_ms elapsed)
    d ← get
    let (receiver, opened) = receive_from p.crypto from_server datagram d.packet_receiver
    modify (λ e. record e { packet_receiver = receiver })
    after_open opened now

  abbrev pub handle_instruction :
      Option TransportInstruction → (elapsed : ℕ) → D (Terminal p) DatagramOutcome
  handle_instruction none elapsed = pure continue
  handle_instruction (some i) elapsed =
      if is_shutdown i
      then (do handle_remote_shutdown i; pure remote_shutdown)
      else (do handle_normal_instruction i elapsed; pure continue)

  -- The clock is read for the datagram and again for its instruction.
  unfoldable pub handle_datagram :
      (from_server : Bool) → List ℕ → (elapsed later : ℕ) → D (Terminal p) DatagramOutcome
  handle_datagram from_server datagram elapsed later = do
    i ← decode_datagram from_server datagram elapsed
    handle_instruction i later
