-- ===== src/Fragment/Examples.antt =====
-- A fragment on the wire, and the theorems at concrete inputs.
use mosh_client_rs.Prelude.{
  ◌≡◌, refl, arith, ℕ, ◌+◌, ◌≤◌, true, false, none, some, List, [], ◌∷◌, ok, length,
}
use mosh_client_rs.Fragment.Codec.{Fragment, header_bytes, encode, layout, fragment_word, decode}
use mosh_client_rs.Fragment.Reassembly.{
  complete, FragmentReassembler, push, push_at, push_matching, classify, classify_new, push_new,
  insert, is_complete, assemble, observe_time, expire_due, expired,
}
use mosh_client_rs.Fragment.Assembly.{Sent, Genuine, push-Genuine}
use mosh_client_rs.Fragment.RoundTrip.{IsWire, decode-encode}

abbrev last_fragment : Fragment
last_fragment = record {
  timestamp = 258;
  timestamp_reply = some 3;
  identifier = 4;
  number = 2;
  is_final = true;
  body = 8 ∷ 9 ∷ [];
}

abbrev last_bytes : List ℕ
last_bytes = 1 ∷ 2 ∷ 0 ∷ 3 ∷ 0 ∷ 0 ∷ 0 ∷ 0 ∷ 0 ∷ 0 ∷ 0 ∷ 4 ∷ 128 ∷ 2 ∷ 8 ∷ 9 ∷ []

encode_last : encode last_fragment 16 ≡ ok last_bytes
unfolding encode layout fragment_word
encode_last = refl

last_fragment-IsWire : IsWire last_fragment
last_fragment-IsWire = record {
  timestamp_u16 = omega arith;
  reply_u16 = omega arith;
  reply_ne = λ reply e. ground (arith, e);
  identifier_u64 = omega arith;
}

decode-encode_example :
    (decode last_bytes ≡ ok last_fragment)
    × (length last_bytes ≡ header_bytes + length last_fragment.body)
    × (length last_bytes ≤ 16)
decode-encode_example = decode-encode last_fragment 16 last_bytes last_fragment-IsWire encode_last

-- One instruction of two chunks, under the identifier 4.
abbrev two_chunks : Sent
two_chunks n = (1 ∷ 2 ∷ []) ∷ (3 ∷ []) ∷ []

abbrev second_chunk : Fragment
second_chunk = record {
  timestamp = 0;
  timestamp_reply = none;
  identifier = 4;
  number = 1;
  is_final = true;
  body = 3 ∷ [];
}

abbrev first_stored : FragmentReassembler
first_stored = record {
  incomplete = some (record {
    identifier = 4;
    created_at_ms = 0;
    stored_bytes = 2;
    final_number = none;
    fragments = (0, record { body = 1 ∷ 2 ∷ []; is_final = false }) ∷ [];
  });
  last_observed_ms = 0;
}

push_second : (push 5 second_chunk first_stored).1 ≡ ok (complete (1 ∷ 2 ∷ 3 ∷ []))
unfolding push push_at push_matching classify classify_new push_new insert is_complete assemble
    observe_time expire_due expired
push_second = refl

push-Genuine_example : Genuine two_chunks 4 (push 5 second_chunk first_stored)
push-Genuine_example =
    push-Genuine two_chunks 5 second_chunk first_stored
      (record { entries = (refl, tt); final_at = tt }) (record { body_at = refl; last_at = refl })
