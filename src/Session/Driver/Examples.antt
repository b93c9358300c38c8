-- ===== src/Session/Driver/Examples.antt =====
-- A session over a screen that is no more than its size, and the theorems at concrete inputs.
use mosh_client_rs.Prelude.{
  true, ◌≡◌, ◌≢◌, refl, arith, ℕ, false, some, none, [], ◌∷◌, List, Option, ok, err, length,
}
use mosh_client_rs.Instruction.Examples.{plain_format, plain-ConsumesInput}
use mosh_client_rs.Instruction.Encoding.{encode_client_difference, wire_operations, wire_operation}
use mosh_client_rs.Packet.Examples.{identity_cipher}
use mosh_client_rs.Terminal.Examples.{bare_library}
use mosh_client_rs.Terminal.State.{new, checked_size}
use mosh_client_rs.Timing.Datagram.{OutgoingTimestamps}
use mosh_client_rs.Fragment.Reassembly.{
  expire, new_reassembler, push, observe_time, expire_due, expired, push_at, push_other, complete,
}
use mosh_client_rs.Prediction.State.{adaptive}
use mosh_client_rs.Session.Errors.{
  session_error, internal_state, session_panicked, connection_timeout,
}
use mosh_client_rs.Session.History.{append}
use mosh_client_rs.Synchronization.Sender.{advance_local}
use mosh_client_rs.Timing.Scheduler.{note_local_change}
use mosh_client_rs.Session.Driver.State.{Platform, Terminal, Driver, connect}
use mosh_client_rs.Session.Driver.Sending.{Network, chunks, fragment_of}
use mosh_client_rs.Session.Driver.Pieces.{Arriving, fragment_of-first_complete, pieces}
use mosh_client_rs.Fragment.Delivered.{first_complete, arrives}
use mosh_client_rs.Fragment.Codec.{Fragment}
use mosh_client_rs.Prelude.{zero, suc, ◌<◌, ap, some}
use mosh_client_rs.Session.Driver.Closing.{Round, command, granted, SessionExit}
use mosh_client_rs.Session.Driver.Commands.{input_command}
use mosh_client_rs.Session.Driver.Running.{run}
use mosh_client_rs.Session.Driver.Coherence.{IsCoherent}
use mosh_client_rs.Session.Driver.Coherence.Sessions.{session-IsCoherent, session-never_internal}

abbrev bare_platform : Platform
bare_platform = record { library = bare_library; wire = plain_format; crypto = identity_cipher }

abbrev whole_network : Network
whole_network = record {
  is_cancelled = λ number. false;
  send_to = λ number bytes. ok (length bytes);
}

abbrev round_at_ms : ℕ → Round
round_at_ms now = record {
  is_cancelled = false;
  elapsed = now;
  network = whole_network;
  after_send_elapsed = now;
  is_cancelled_after_send = false;
  wake = command (input_command (97 ∷ []));
  failed_elapsed = now;
  datagram_elapsed = now;
  instruction_elapsed = now;
  closing_elapsed = now;
  close_network = whole_network;
  is_cancelled_at_close = false;
  permit = granted;
  is_representable = λ ms. true;
}

connected : (d : Driver (Terminal bare_platform)) × (connect bare_platform 2 2 adaptive ≡ ok d)
unfolding connect new checked_size append encode_client_difference wire_operations wire_operation
    advance_local note_local_change
connected = (_, refl)

ran :
    (e : Driver (Terminal bare_platform)) × (exit : Option SessionExit) × (run bare_platform
        (round_at_ms 5 ∷ round_at_ms 30 ∷ [])
        connected.0
      ≡ (e, ok exit))
unfolding connected run mosh_client_rs.Session.Driver.Running.run_round
    mosh_client_rs.Session.Driver.State.now_ms mosh_client_rs.Session.Driver.Running.round_at
    mosh_client_rs.Session.Driver.Receiving.publish_reachability
    mosh_client_rs.Session.Reachability.update mosh_client_rs.Session.Reachability.calculate
    mosh_client_rs.Session.Reachability.attachment_timed_out expire
    mosh_client_rs.Fragment.Reassembly.observe_time mosh_client_rs.Fragment.Reassembly.expire_due
    mosh_client_rs.Fragment.Reassembly.expired mosh_client_rs.Prediction.State.expire
    mosh_client_rs.Prediction.State.update_policy mosh_client_rs.Timing.Scheduler.poll
    mosh_client_rs.Synchronization.State.latest_unacknowledged_sent_at_ms
    mosh_client_rs.Timing.Scheduler.deadlines mosh_client_rs.Timing.Scheduler.decide
    mosh_client_rs.Timing.Scheduler.due_reasons mosh_client_rs.Session.Driver.Running.wake_ms
    mosh_client_rs.Session.Reachability.next_deadline_ms
    mosh_client_rs.Session.Reachability.next_deadline_at
    mosh_client_rs.Session.Driver.Running.handle_wake
    mosh_client_rs.Session.Driver.Commands.handle_command mosh_client_rs.Session.History.checkpoint
    mosh_client_rs.Prediction.State.observe_input mosh_client_rs.Terminal.State.with_predicted_ascii
    mosh_client_rs.Terminal.State.apply_host_bytes
    mosh_client_rs.Terminal.Budget.validate_host_bytes mosh_client_rs.Terminal.Width.width
    mosh_client_rs.Terminal.State.unsupported_sequence mosh_client_rs.Terminal.State.validate_screen
    mosh_client_rs.Session.Driver.Sending.send_instruction
    mosh_client_rs.Synchronization.Sender.plan_send
    mosh_client_rs.Synchronization.Sender.choose_base
    mosh_client_rs.Synchronization.Sender.plan_from mosh_client_rs.Session.History.difference
    mosh_client_rs.Session.Driver.Sending.send_transport_instruction
    mosh_client_rs.Instruction.Encoding.encode_zlib mosh_client_rs.Synchronization.State.instruction
    mosh_client_rs.Timing.Datagram.outgoing mosh_client_rs.Timing.Datagram.observe_time chunks
    mosh_client_rs.Fragment.Codec.encode mosh_client_rs.Packet.Window.take_sequence
    mosh_client_rs.Packet.Codec.seal mosh_client_rs.Session.Driver.Sending.commit_plan
    mosh_client_rs.Synchronization.Sender.commit_send
    mosh_client_rs.Synchronization.Sender.is_stale_send mosh_client_rs.Timing.Scheduler.commit_send
    mosh_client_rs.Synchronization.Sender.record_sent
ran = (_, _, refl)

timed_out :
    (run bare_platform (round_at_ms 5 ∷ round_at_ms 1000000 ∷ []) connected.0).1
    ≡ err connection_timeout
unfolding connected run mosh_client_rs.Session.Driver.Running.run_round
    mosh_client_rs.Session.Driver.State.now_ms mosh_client_rs.Session.Driver.Running.round_at
    mosh_client_rs.Session.Driver.Receiving.publish_reachability
    mosh_client_rs.Session.Reachability.update mosh_client_rs.Session.Reachability.calculate
    mosh_client_rs.Session.Reachability.attachment_timed_out expire
    mosh_client_rs.Fragment.Reassembly.observe_time mosh_client_rs.Fragment.Reassembly.expire_due
    mosh_client_rs.Fragment.Reassembly.expired mosh_client_rs.Prediction.State.expire
    mosh_client_rs.Prediction.State.update_policy mosh_client_rs.Timing.Scheduler.poll
    mosh_client_rs.Synchronization.State.latest_unacknowledged_sent_at_ms
    mosh_client_rs.Timing.Scheduler.deadlines mosh_client_rs.Timing.Scheduler.decide
    mosh_client_rs.Timing.Scheduler.due_reasons mosh_client_rs.Session.Driver.Running.wake_ms
    mosh_client_rs.Session.Reachability.next_deadline_ms
    mosh_client_rs.Session.Reachability.next_deadline_at
    mosh_client_rs.Session.Driver.Running.handle_wake
    mosh_client_rs.Session.Driver.Commands.handle_command mosh_client_rs.Session.History.checkpoint
    mosh_client_rs.Prediction.State.observe_input mosh_client_rs.Terminal.State.with_predicted_ascii
    mosh_client_rs.Terminal.State.apply_host_bytes
    mosh_client_rs.Terminal.Budget.validate_host_bytes mosh_client_rs.Terminal.Width.width
    mosh_client_rs.Terminal.State.unsupported_sequence mosh_client_rs.Terminal.State.validate_screen
timed_out = refl

session-IsCoherent_example : IsCoherent bare_platform ran.0
session-IsCoherent_example =
    session-IsCoherent bare_platform plain-ConsumesInput 2 2 adaptive connected.0 ran.0
      (round_at_ms 5 ∷ round_at_ms 30 ∷ []) ran.1 connected.1 ran.2

session-never_internal_example :
    (session_error connection_timeout ≢ internal_state)
    × (session_error connection_timeout ≢ session_panicked)
session-never_internal_example =
    session-never_internal bare_platform plain-ConsumesInput 2 2 adaptive connected.0
      (round_at_ms 5 ∷ round_at_ms 1000000 ∷ []) connection_timeout connected.1 timed_out

abbrev no_reply : OutgoingTimestamps
no_reply = record { timestamp = 11; timestamp_reply = none }

abbrev zeros : ℕ → List ℕ
zeros zero = []
zeros (suc n) = 0 ∷ zeros n

-- One byte more than a fragment can carry.
abbrev long_bytes : List ℕ
long_bytes = 7 ∷ zeros 1400

abbrev first_fragment : Fragment
first_fragment = fragment_of no_reply 3 2 0 (7 ∷ zeros 1399)

abbrev last_fragment : Fragment
last_fragment = fragment_of no_reply 3 2 1 (0 ∷ [])

-- The last fragment comes first, and twice.
abbrev out_of_order : List (ℕ × Fragment)
out_of_order = (5, last_fragment) ∷ (6, last_fragment) ∷ (8, first_fragment) ∷ []

long_pieces : pieces long_bytes ≡ (7 ∷ zeros 1399) ∷ (0 ∷ []) ∷ []
unfolding chunks
long_pieces = refl

out_of_order-Arriving : Arriving no_reply 3 long_bytes 5 5 out_of_order
unfolding chunks
out_of_order-Arriving = (
  omega arith,
  omega arith,
  (0 ∷ [], refl, refl),
  (
    omega arith,
    omega arith,
    (0 ∷ [], refl, refl),
    (omega arith, omega arith, (7 ∷ zeros 1399, refl, refl), tt),
  ),
)

out_of_order-whole : (n : ℕ) → n < length (pieces long_bytes) → arrives n out_of_order ≡ true
out_of_order-whole zero h = refl
out_of_order-whole (suc zero) h = refl
out_of_order-whole (suc (suc n)) h = absurd (omega (arith, ap length long_pieces, h))

fragment_of-first_complete_example :
    first_complete out_of_order (new_reassembler 0) ≡ some long_bytes
fragment_of-first_complete_example =
    fragment_of-first_complete no_reply 3 5 long_bytes (new_reassembler 0) out_of_order
      (omega arith) (omega arith) (omega arith) refl (omega arith) out_of_order-Arriving
      out_of_order-whole
