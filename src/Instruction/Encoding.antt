-- ===== src/Instruction/Encoding.antt =====
-- instruction.rs: encoding, compression and their limits. The `prost` messages and the `miniz_oxide`
-- codec are parameters.
use mosh_client_rs.Prelude.{
  ℕ, zero, suc, ◌+◌, ◌-◌, ◌*◌, Bool, ◌&&◌, ◌||◌, Option, none, some, List, [], ◌∷◌, ◌++◌, Result,
  ok, err, ok_or, try, ltb, ◌==◌, if◌then◌else◌, length, drop, clamp,
}
use mosh_client_rs.Limits.{
  max_client_operations_after_ack, max_compressed_instruction_bytes,
  max_decompressed_instruction_bytes, max_input_command_bytes, max_state_difference_bytes,
  max_terminal_columns, max_terminal_rows,
}
use mosh_client_rs.Instruction.Message.{
  InstructionError, invalid_terminal_size, decoded_too_large, compressed_too_large,
  invalid_compression, trailing_compressed_data, invalid_message, incompatible_version,
  input_too_large, too_many_client_operations, state_difference_too_large, ClientOperation, input,
  resize, TransportInstruction, TerminalOperation, protocol_version,
}

abbrev pub decompression_chunk_bytes : ℕ
decompression_chunk_bytes = 16 * 1024

-- The status of one call of `inflate`; any other status and every error is `failed`.
pub data Status : Type 0 where
  stream_end running failed : Status

pub record InflateResult (S : Type 0) : Type 0 where
  pub state : S
  pub bytes_consumed : ℕ
  pub written : List ℕ
  pub status : Status

-- What the code calls of `prost` and `miniz_oxide`.
pub record WireFormat : Type 1 where
  pub encode_difference : List TerminalOperation → List ℕ
  pub encode_instruction : TransportInstruction → List ℕ
  pub decode_instruction : List ℕ → Option TransportInstruction
  pub compress : List ℕ → List ℕ
  pub InflateState : Type 0
  pub fresh : InflateState
  pub inflate : InflateState → (input : List ℕ) → (writable : ℕ) → InflateResult InflateState

unfoldable pub is_invalid_size : (columns rows : ℕ) → Bool
is_invalid_size columns rows =
    columns == 0 || ltb max_terminal_columns columns || rows == 0 || ltb max_terminal_rows rows

-- One step of the loop of `encode_client_difference`.
unfoldable pub wire_operation : ClientOperation → Result InstructionError TerminalOperation
unfolding is_invalid_size
wire_operation (input bytes) =
    if ltb max_input_command_bytes (length bytes)
    then err input_too_large
    else ok (record { bytes_operation = some bytes; initial_size = none })
wire_operation (resize columns rows) =
    if is_invalid_size columns rows
    then err invalid_terminal_size
    else ok (record {
      bytes_operation = none;
      initial_size = some (record { columns = columns; rows = rows });
    })

unfoldable pub wire_operations :
    List ClientOperation → Result InstructionError (List TerminalOperation)
unfolding wire_operation
wire_operations [] = ok []
wire_operations (o ∷ os) =
    let rest = wire_operations os in try (wire_operation o) (λ w. try rest (λ ws. ok (w ∷ ws)))

module _ (w : WireFormat) where
  unfoldable pub encode_client_difference : List ClientOperation → Result InstructionError (List ℕ)
  unfolding wire_operations
  encode_client_difference operations =
      if ltb max_client_operations_after_ack (length operations)
      then err too_many_client_operations
      else try (wire_operations operations) (λ wire.
        let encoded = w.encode_difference wire in
        if ltb max_state_difference_bytes (length encoded)
        then err state_difference_too_large
        else ok encoded)

  unfoldable pub initial :
      (columns rows : ℕ) → List ℕ → Result InstructionError TransportInstruction
  unfolding is_invalid_size encode_client_difference
  initial columns rows chaff =
      if is_invalid_size columns rows
      then err invalid_terminal_size
      else try (encode_client_difference (resize columns rows ∷ [])) (λ difference. ok (record {
        version = protocol_version;
        base_state = 0;
        new_state = 1;
        acknowledged_state = 0;
        discard_before_state = 0;
        state_difference = difference;
        chaff = chaff;
      }))

  unfoldable pub encode_zlib : TransportInstruction → Result InstructionError (List ℕ)
  encode_zlib i =
      if ltb max_decompressed_instruction_bytes (length (w.encode_instruction i))
      then err decoded_too_large
      else (let compressed = w.compress (w.encode_instruction i) in
          if ltb max_compressed_instruction_bytes (length compressed)
          then err compressed_too_large
          else ok compressed)

  -- The loop of `decompress_exact_zlib` at a state of its variables: the input from `consumed` on, and
  -- the output so far. `none` means that the fuel ran out.
  unfoldable pub decompress_loop :
      ℕ → w.InflateState → (rest output : List ℕ) → Option (Result InstructionError (List ℕ))
  decompress_loop zero state rest output = none
  decompress_loop (suc fuel) state rest output =
      let remaining = max_decompressed_instruction_bytes - length output in
      let result = w.inflate state rest (clamp 1 decompression_chunk_bytes remaining) in
      let rest' = drop result.bytes_consumed rest in
      let output' = output ++ result.written in
      let next = decompress_loop fuel result.state rest' output' in
      if ltb remaining (length result.written)
      then some (err decoded_too_large)
      else elim result.status [
        | stream_end ↦
            if result.bytes_consumed == length rest
            then some (ok output')
            else some (err trailing_compressed_data)
        | running ↦
            if result.bytes_consumed == 0 && length result.written == 0
            then some (err invalid_compression)
            else next
        | failed ↦ some (err invalid_compression)
      ]

  -- Enough rounds: each one that goes on consumes or writes a byte.
  abbrev pub enough_fuel : List ℕ → ℕ
  enough_fuel compressed = length compressed + max_decompressed_instruction_bytes + 2

  unfoldable pub decompress_exact_zlib : List ℕ → Option (Result InstructionError (List ℕ))
  unfolding decompress_loop
  decompress_exact_zlib compressed = decompress_loop (enough_fuel compressed) w.fresh compressed []

  unfoldable pub decode_message : List ℕ → Result InstructionError TransportInstruction
  decode_message decoded =
      try (ok_or (w.decode_instruction decoded) invalid_message)
        (λ i. if i.version == protocol_version then ok i else err incompatible_version)

  abbrev and_decode :
      Option (Result InstructionError (List ℕ))
      → Option (Result InstructionError TransportInstruction)
  and_decode none = none
  and_decode (some r) = some (try r decode_message)

  unfoldable pub decode_zlib : List ℕ → Option (Result InstructionError TransportInstruction)
  unfolding decode_message
  decode_zlib compressed =
      if ltb max_compressed_instruction_bytes (length compressed)
      then some (err compressed_too_large)
      else and_decode (decompress_exact_zlib compressed)
