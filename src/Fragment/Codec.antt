-- ===== src/Fragment/Codec.antt =====
-- fragment.rs: the wire form of a fragment, `encode` and `decode`.
use Prim.Native.Nat.{bit_and, bit_or}
use mosh_client_rs.Prelude.{
  ℕ, ◌+◌, ◌-◌, ◌^◌, Bool, true, false, not, Option, none, some, List, ◌++◌, Result, ok, err, ltb,
  ◌==◌, if◌then◌else◌, length, take, drop, to_be_bytes, from_be_bytes,
}
use mosh_client_rs.Limits.{max_fragment_body_bytes}

abbrev pub timestamp_bytes : ℕ
timestamp_bytes = 2

abbrev pub timestamp_reply_bytes : ℕ
timestamp_reply_bytes = 2

abbrev pub identifier_bytes : ℕ
identifier_bytes = 8

abbrev pub fragment_word_bytes : ℕ
fragment_word_bytes = 2

abbrev pub header_bytes : ℕ
header_bytes = timestamp_bytes + timestamp_reply_bytes + identifier_bytes + fragment_word_bytes

abbrev pub final_fragment_bit : ℕ
final_fragment_bit = 2 ^ 15

abbrev pub max_fragment_number : ℕ
max_fragment_number = 2 ^ 15 - 1

abbrev pub no_timestamp_reply : ℕ
no_timestamp_reply = 2 ^ 16 - 1

pub data FragmentError : Type 0 where
  too_short : FragmentError
  body_too_large : FragmentError
  fragment_number_out_of_range : FragmentError
  output_too_small : FragmentError

pub record Fragment : Type 0 where
  pub timestamp : ℕ
  pub timestamp_reply : Option ℕ
  pub identifier : ℕ
  pub number : ℕ
  pub is_final : Bool
  pub body : List ℕ

-- `unwrap_or(NO_TIMESTAMP_REPLY)`.
abbrev pub raw_reply : Option ℕ → ℕ
raw_reply none = no_timestamp_reply
raw_reply (some reply) = reply

abbrev pub final_bit : Bool → ℕ
final_bit true = final_fragment_bit
final_bit false = 0

unfoldable pub fragment_word : ℕ → Bool → ℕ
fragment_word number is_final = bit_or number (final_bit is_final)

-- The five fields in order.
unfoldable pub layout : Fragment → List ℕ
unfolding fragment_word
layout f =
    to_be_bytes timestamp_bytes f.timestamp
    ++ (to_be_bytes timestamp_reply_bytes (raw_reply f.timestamp_reply)
        ++ (to_be_bytes identifier_bytes f.identifier
            ++ (to_be_bytes fragment_word_bytes (fragment_word f.number f.is_final) ++ f.body)))

-- `encode`: the bytes written to an output buffer of the given length.
unfoldable pub encode : Fragment → (output_len : ℕ) → Result FragmentError (List ℕ)
unfolding layout
encode f output_len =
    if ltb max_fragment_number f.number
    then err fragment_number_out_of_range
    else if ltb max_fragment_body_bytes (length f.body)
    then err body_too_large
    else if ltb output_len (header_bytes + length f.body)
    then err output_too_small
    else ok (layout f)

-- A word of `n` bytes at an offset.
abbrev pub word_at : (offset n : ℕ) → List ℕ → ℕ
word_at offset n bytes = from_be_bytes (take n (drop offset bytes))

unfoldable pub decode : List ℕ → Result FragmentError Fragment
decode plaintext =
    if ltb (length plaintext) header_bytes
    then err too_short
    else if ltb max_fragment_body_bytes (length (drop header_bytes plaintext))
    then err body_too_large
    else ok (record {
      timestamp = word_at 0 2 plaintext;
      timestamp_reply =
          if not (word_at 2 2 plaintext == no_timestamp_reply)
          then some (word_at 2 2 plaintext)
          else none;
      identifier = word_at 4 identifier_bytes plaintext;
      number = bit_and (word_at 12 2 plaintext) max_fragment_number;
      is_final = not (bit_and (word_at 12 2 plaintext) final_fragment_bit == 0);
      body = drop header_bytes plaintext;
    })
