-- ===== src/Instruction/Termination.antt =====
-- The loop of `decompress_exact_zlib` ends, and stays within its limit.
use mosh_client_rs.Prelude.{
  ◌≡◌, refl, arith, ℕ, zero, suc, ◌+◌, ◌-◌, ◌≤◌, ◌<◌, false, ◌&&◌, some, List, [], ◌++◌, Result, ok,
  err, ◌⊎◌, inl, inr, ltb, ◌==◌, length, length-append, drop, length-drop, clamp, Bool-cases,
  dec_lt, try,
}
use mosh_client_rs.Limits.{max_decompressed_instruction_bytes, max_compressed_instruction_bytes}
use mosh_client_rs.Instruction.Message.{
  InstructionError, compressed_too_large, invalid_compression, decoded_too_large,
  trailing_compressed_data,
}
use mosh_client_rs.Instruction.Encoding.{
  WireFormat, Status, stream_end, running, failed, InflateResult, decompression_chunk_bytes,
  decompress_loop, enough_fuel, decompress_exact_zlib, decode_message, decode_zlib,
}

ltb-false : (a b : ℕ) → ltb a b ≡ false → b ≤ a
ltb-false a b h = ground (arith, h)

progress : (a b : ℕ) → (a == 0 && b == 0) ≡ false → 0 < a + b
progress a b h = ground (arith, h)

module _ (w : WireFormat) where
  -- `inflate` consumes no more than it is given.
  abbrev pub ConsumesInput : Type 0
  ConsumesInput =
      (state : w.InflateState) (input : List ℕ) (writable : ℕ)
      → (w.inflate state input writable).bytes_consumed ≤ length input

  -- A decompressed instruction is within the limit.
  abbrev pub IsWithin : Result InstructionError (List ℕ) → Type 0
  IsWithin (ok output) = length output ≤ max_decompressed_instruction_bytes
  IsWithin (err e) = Unit

  module _ (consumes : ConsumesInput) where
    -- So much fuel is enough.
    abbrev Suffices : ℕ → Type 0
    Suffices fuel =
        (state : w.InflateState) (rest output : List ℕ)
        → length output ≤ max_decompressed_instruction_bytes
        → length rest + (max_decompressed_instruction_bytes - length output) < fuel
        → (r : Result InstructionError (List ℕ)) × (decompress_loop w fuel state rest output
            ≡ some r)
          × IsWithin r

    one_round : (fuel : ℕ) → Suffices fuel → Suffices (suc fuel)
    unfolding decompress_loop
    one_round fuel again state rest output le lt =
        elim (Bool-cases (ltb remaining (length result.written))) [
          | inl over ↦ (err decoded_too_large, ground (arith, over), tt)
          | inr room ↦ go room result.status refl
        ]
      where
        remaining : ℕ
        remaining = max_decompressed_instruction_bytes - length output

        result : InflateResult w.InflateState
        result = w.inflate state rest (clamp 1 decompression_chunk_bytes remaining)

        go :
            ltb remaining (length result.written) ≡ false
            → (s : Status) → result.status ≡ s
            → (r : Result InstructionError (List ℕ)) × (decompress_loop w
                  (suc fuel)
                  state
                  rest
                  output
                ≡ some r)
              × IsWithin r
        go room stream_end e = elim (Bool-cases (result.bytes_consumed == length rest)) [
          | inl all ↦ (
            ok (output ++ result.written),
            ground (arith, room, e, all),
            omega (arith, length-append output result.written, ltb-false remaining _ room),
          )
          | inr some_left ↦ (err trailing_compressed_data, ground (arith, room, e, some_left), tt)
        ]
        go room running e =
            elim (Bool-cases (result.bytes_consumed == 0 && length result.written == 0)) [
              | inl stuck ↦ (err invalid_compression, ground (arith, room, e, stuck), tt)
              | inr moved ↦
                  let fits = ltb-false remaining (length result.written) room in
                  let longer = length-append output result.written in
                  let shorter = length-drop result.bytes_consumed rest in
                  let some_step = progress result.bytes_consumed (length result.written) moved in
                  let within = consumes state rest (clamp 1 decompression_chunk_bytes remaining) in
                  let (r, returns, small) =
                    again result.state (drop result.bytes_consumed rest) (output ++ result.written)
                      (omega (arith, longer, fits))
                      (omega (arith, longer, shorter, fits, some_step, within)) in
                  (r, ground (arith, room, e, moved, returns), small)
            ]
        go room failed e = (err invalid_compression, ground (arith, room, e), tt)

    decompress_loop_total : (fuel : ℕ) → Suffices fuel
    decompress_loop_total zero state rest output le lt = absurd (omega arith)
    decompress_loop_total (suc fuel) state rest output le lt =
        one_round fuel (decompress_loop_total fuel) state rest output le lt

    -- Given that `inflate` consumes no more than its input, decompression returns on every input, and
    -- what it returns is an error or is within the limit of a decompressed instruction.
    pub decompress_exact_zlib_total :
        (compressed : List ℕ)
        → (r : Result InstructionError (List ℕ)) × (decompress_exact_zlib w compressed ≡ some r)
          × IsWithin r
    unfolding decompress_exact_zlib
    decompress_exact_zlib_total compressed =
        decompress_loop_total (enough_fuel w compressed) w.fresh compressed [] (omega arith)
          (omega arith)

    -- Under the same condition decoding returns on every input: an input over the limit is refused
    -- before it is decompressed, and any other is decompressed within the limit and then read.
    pub decode_zlib_total :
        (compressed : List ℕ)
        → ((max_compressed_instruction_bytes < length compressed)
            × (decode_zlib w compressed ≡ some (err compressed_too_large)))
          ⊎ ((length compressed ≤ max_compressed_instruction_bytes)
              × ((r : Result InstructionError (List ℕ)) × (decompress_exact_zlib w compressed
                    ≡ some r)
                  × IsWithin r
                  × (decode_zlib w compressed ≡ some (try r (decode_message w)))))
    unfolding decode_zlib
    decode_zlib_total compressed =
        elim (dec_lt max_compressed_instruction_bytes (length compressed)) [
          | yes over ↦ inl (over, ground (arith, over))
          | no under ↦
              let (r, returns, small) = decompress_exact_zlib_total compressed in
              inr (omega arith, (r, returns, small, ground (arith, under, returns)))
        ]
