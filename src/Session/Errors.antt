-- ===== src/Session/Errors.antt =====
-- session/driver.rs: the errors of the driver, and the public categories that session.rs has for them.
use mosh_client_rs.Prelude.{ℕ, Bool, true, false}
use mosh_client_rs.Packet.Window.{PacketError, sequence_exhausted}
use mosh_client_rs.Fragment.Codec.{FragmentError}
use mosh_client_rs.Fragment.Reassembly.{ReassemblyError}
use mosh_client_rs.Instruction.Message.{
  InstructionError, decoded_too_large, compressed_too_large, input_too_large,
  too_many_client_operations, state_difference_too_large,
}
use mosh_client_rs.Synchronization.State.{SynchronizationError, state_number_exhausted}
use mosh_client_rs.Timing.Rtt.{TimingError}
use mosh_client_rs.Terminal.Screen.{TerminalError, invalid_terminal_size}
use mosh_client_rs.Terminal.Paint.{PaintError}
use mosh_client_rs.Prediction.State.{Failure, terminal_error, panic}
use mosh_client_rs.Session.Reachability.{ReachabilityError}
use mosh_client_rs.Session.History.{HistoryError}

-- The kinds that the code names; any other has a number of its own.
pub data ErrorKind : Type 0 where
  network_down network_unreachable host_unreachable addr_not_available permission_denied : ErrorKind
  write_zero : ErrorKind
  other_kind : ℕ → ErrorKind

pub data DriverError : Type 0 where
  io : ErrorKind → DriverError
  packet : PacketError → DriverError
  fragment : FragmentError → DriverError
  reassembly : ReassemblyError → DriverError
  instruction : InstructionError → DriverError
  synchronization : SynchronizationError → DriverError
  timing : TimingError → DriverError
  reachability : ReachabilityError → DriverError
  terminal : TerminalError → DriverError
  paint : PaintError → DriverError
  missing_client_state missing_terminal_state operation_index_exhausted : DriverError
  fragment_identifier_exhausted clock_exhausted connection_timeout : DriverError
  incomplete_datagram_send : DriverError
  -- An `expect` of the predictions that fails, or a `drain` past the end.
  panicked : DriverError

pub data SessionError : Type 0 where
  session_io : ErrorKind → SessionError
  session_invalid_terminal_size session_connection_timeout protocol resource_limit : SessionError
  state_exhausted internal_state : SessionError
  session_panicked : SessionError

abbrev pub packet_category : PacketError → SessionError
packet_category sequence_exhausted = state_exhausted
packet_category _ = protocol

abbrev pub reassembly_category : ReassemblyError → SessionError
reassembly_category ReassemblyError.instruction_too_large = resource_limit
reassembly_category ReassemblyError.too_many_incomplete_instructions = resource_limit
reassembly_category ReassemblyError.timer_exhausted = state_exhausted
reassembly_category _ = protocol

abbrev pub instruction_category : InstructionError → SessionError
instruction_category decoded_too_large = resource_limit
instruction_category compressed_too_large = resource_limit
instruction_category input_too_large = resource_limit
instruction_category too_many_client_operations = resource_limit
instruction_category state_difference_too_large = resource_limit
instruction_category _ = protocol

abbrev pub synchronization_category : SynchronizationError → SessionError
synchronization_category state_number_exhausted = state_exhausted
synchronization_category SynchronizationError.generation_exhausted = state_exhausted
synchronization_category _ = protocol

abbrev pub timing_category : TimingError → SessionError
timing_category TimingError.timer_exhausted = state_exhausted
timing_category TimingError.generation_exhausted = state_exhausted
timing_category _ = protocol

abbrev pub terminal_category : TerminalError → SessionError
terminal_category invalid_terminal_size = session_invalid_terminal_size
terminal_category _ = protocol

-- `From<DriverError> for SessionError`.
unfoldable pub session_error : DriverError → SessionError
session_error (io kind) = session_io kind
session_error connection_timeout = session_connection_timeout
session_error (terminal e) = terminal_category e
session_error (instruction e) = instruction_category e
session_error (paint e) = resource_limit
session_error (reassembly e) = reassembly_category e
session_error incomplete_datagram_send = session_io write_zero
session_error missing_client_state = internal_state
session_error missing_terminal_state = internal_state
session_error operation_index_exhausted = state_exhausted
session_error fragment_identifier_exhausted = state_exhausted
session_error clock_exhausted = state_exhausted
session_error (reachability e) = state_exhausted
session_error (packet e) = packet_category e
session_error (synchronization e) = synchronization_category e
session_error (timing e) = timing_category e
session_error (fragment e) = protocol
session_error panicked = session_panicked

unfoldable pub is_recoverable_established_io_error : ErrorKind → Bool
is_recoverable_established_io_error network_down = true
is_recoverable_established_io_error network_unreachable = true
is_recoverable_established_io_error host_unreachable = true
is_recoverable_established_io_error addr_not_available = true
is_recoverable_established_io_error permission_denied = true
is_recoverable_established_io_error write_zero = false
is_recoverable_established_io_error (other_kind n) = false

-- `DriverError::from` for the history and the predictions.
abbrev pub from_history : HistoryError → DriverError
from_history (HistoryError.instruction_error e) = instruction e
from_history HistoryError.operation_index_exhausted = operation_index_exhausted
from_history HistoryError.missing_client_state = missing_client_state
from_history HistoryError.drain_panicked = panicked

abbrev pub from_failure : Failure TerminalError → DriverError
from_failure (terminal_error e) = terminal e
from_failure panic = panicked
