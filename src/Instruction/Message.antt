-- ===== src/Instruction/Message.antt =====
-- instruction.rs: the messages, and the client operations that a difference carries.
use mosh_client_rs.Prelude.{ℕ, Bool, Option, List, u64_max, ◌==◌}

abbrev pub protocol_version : ℕ
protocol_version = 2

abbrev pub shutdown_state : ℕ
shutdown_state = u64_max

pub data InstructionError : Type 0 where
  invalid_terminal_size : InstructionError
  decoded_too_large : InstructionError
  compressed_too_large : InstructionError
  invalid_compression : InstructionError
  trailing_compressed_data : InstructionError
  invalid_message : InstructionError
  incompatible_version : InstructionError
  input_too_large : InstructionError
  too_many_client_operations : InstructionError
  state_difference_too_large : InstructionError

pub data ClientOperation : Type 0 where
  input : (bytes : List ℕ) → ClientOperation
  resize : (columns rows : ℕ) → ClientOperation

pub record TransportInstruction : Type 0 where
  pub version : ℕ
  pub base_state : ℕ
  pub new_state : ℕ
  pub acknowledged_state : ℕ
  pub discard_before_state : ℕ
  pub state_difference : List ℕ
  pub chaff : List ℕ

pub record TerminalSize : Type 0 where
  pub columns : ℕ
  pub rows : ℕ

pub record TerminalOperation : Type 0 where
  pub bytes_operation : Option (List ℕ)
  pub initial_size : Option TerminalSize

unfoldable pub is_shutdown : TransportInstruction → Bool
is_shutdown i = i.new_state == shutdown_state
