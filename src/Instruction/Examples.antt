-- ===== src/Instruction/Examples.antt =====
-- Runs of the decompression loop, and the theorems at concrete inputs. The format of the runs is not
-- compressed: one byte is copied in each round, and the stream ends with its first zero.
use mosh_client_rs.Prelude.{
  ◌≡◌, refl, arith, ℕ, zero, suc, ◌≤◌, none, some, List, [], ◌∷◌, ◌++◌, Result, ok, err, length,
}
use mosh_client_rs.Instruction.Message.{InstructionError, trailing_compressed_data}
use mosh_client_rs.Instruction.Encoding.{
  WireFormat, InflateResult, stream_end, running, decompress_loop, decompress_exact_zlib,
}
use mosh_client_rs.Instruction.Termination.{ConsumesInput, IsWithin, decompress_exact_zlib_total}

abbrev copy_byte : List ℕ → InflateResult Unit
copy_byte [] = record { state = tt; bytes_consumed = 0; written = []; status = running }
copy_byte (zero ∷ rest) = record {
  state = tt;
  bytes_consumed = 1;
  written = [];
  status = stream_end;
}
copy_byte (suc b ∷ rest) = record {
  state = tt;
  bytes_consumed = 1;
  written = suc b ∷ [];
  status = running;
}

abbrev pub plain_format : WireFormat
plain_format = record {
  encode_difference = λ os. [];
  encode_instruction = λ i. i.state_difference;
  decode_instruction = λ bytes. none;
  compress = λ bytes. bytes ++ 0 ∷ [];
  InflateState = Unit;
  fresh = tt;
  inflate = λ s bytes writable. copy_byte bytes;
}

copy_byte-le : (input : List ℕ) → (copy_byte input).bytes_consumed ≤ length input
copy_byte-le [] = omega arith
copy_byte-le (zero ∷ rest) = omega arith
copy_byte-le (suc b ∷ rest) = omega arith

pub plain-ConsumesInput : ConsumesInput plain_format
plain-ConsumesInput state input writable = copy_byte-le input

plain_run : decompress_loop plain_format 4 tt (5 ∷ 6 ∷ 0 ∷ []) [] ≡ some (ok (5 ∷ 6 ∷ []))
unfolding decompress_loop
plain_run = refl

plain_trailing :
    decompress_loop plain_format 4 tt (5 ∷ 0 ∷ 6 ∷ []) [] ≡ some (err trailing_compressed_data)
unfolding decompress_loop
plain_trailing = refl

decompress_exact_zlib_total_example :
    (r : Result InstructionError (List ℕ)) × (decompress_exact_zlib plain_format (5 ∷ 6 ∷ 0 ∷ [])
      ≡ some r)
    × IsWithin plain_format r
decompress_exact_zlib_total_example =
    decompress_exact_zlib_total plain_format plain-ConsumesInput (5 ∷ 6 ∷ 0 ∷ [])
