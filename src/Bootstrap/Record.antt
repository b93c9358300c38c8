-- ===== src/Bootstrap/Record.antt =====
-- bootstrap.rs: the connect record, `MOSH CONNECT <port> <key>`. The decoder of Base64 is a parameter:
-- the bytes that it writes, or that it fails.
use mosh_client_rs.Prelude.{
  ℕ, ◌+◌, ◌-◌, ◌*◌, Bool, not, ◌&&◌, ◌||◌, Option, none, some, List, [], ◌∷◌, Result, ok, err, try,
  leb, ltb, ◌==◌, if◌then◌else◌, length, null, any, bytes_eq,
}
use mosh_client_rs.Limits.{encoded_key_bytes, decoded_key_bytes}

pub data BootstrapError : Type 0 where
  output_too_large too_many_lines missing_connect_record ambiguous_connect_record : BootstrapError
  malformed_connect_record invalid_port invalid_key : BootstrapError

abbrev pub mosh_word : List ℕ
mosh_word = b'M' ∷ b'O' ∷ b'S' ∷ b'H' ∷ []

abbrev pub connect_word : List ℕ
connect_word = b'C' ∷ b'O' ∷ b'N' ∷ b'N' ∷ b'E' ∷ b'C' ∷ b'T' ∷ []

abbrev pub is_ascii_whitespace : ℕ → Bool
is_ascii_whitespace b = b == 32 || b == 9 || b == 10 || b == 12 || b == 13

abbrev pub is_ascii_digit : ℕ → Bool
is_ascii_digit b = leb b'0' b && leb b b'9'

abbrev pub on_first : ℕ → List (List ℕ) → List (List ℕ)
on_first b [] = (b ∷ []) ∷ []
on_first b (word ∷ words) = (b ∷ word) ∷ words

-- `split`: the pieces between the bytes that satisfy the test, always at least one.
abbrev pub split : (ℕ → Bool) → List ℕ → List (List ℕ)
split separates [] = [] ∷ []
split separates (b ∷ bs) =
    let rest = split separates bs in if separates b then [] ∷ rest else on_first b rest

-- The loop of `parse_port`.
abbrev pub port_value : (so_far : ℕ) → List ℕ → ℕ
port_value so_far [] = so_far
port_value so_far (b ∷ bs) = port_value (so_far * 10 + (b - b'0')) bs

unfoldable pub parse_port : List ℕ → Result BootstrapError ℕ
parse_port bytes =
    if ltb 5 (length bytes) || any (λ b. not (is_ascii_digit b)) bytes
    then err invalid_port
    else (let port = port_value 0 bytes in
        if leb port 65535 && not (port == 0) then ok port else err invalid_port)

-- The port and the key, where the fields are the four of a record.
abbrev pub record_fields : List (List ℕ) → Option (List ℕ × List ℕ)
record_fields (mosh ∷ connect ∷ port ∷ key ∷ []) =
    if bytes_eq mosh mosh_word && bytes_eq connect connect_word && not (null port) && not (null key)
    then some (port, key)
    else none
record_fields _ = none

module _ (decode_slice : List ℕ → Option (List ℕ)) where
  abbrev decoded_key : Option (List ℕ) → Result BootstrapError (List ℕ)
  decoded_key none = err invalid_key
  decoded_key (some key) = if length key == decoded_key_bytes then ok key else err invalid_key

  unfoldable pub parse_key : List ℕ → Result BootstrapError (List ℕ)
  parse_key encoded =
      if length encoded == encoded_key_bytes
      then decoded_key (decode_slice encoded)
      else err invalid_key

  abbrev pub parse_fields : Option (List ℕ × List ℕ) → Result BootstrapError (ℕ × List ℕ)
  parse_fields none = err malformed_connect_record
  parse_fields (some (port, key)) =
      try (parse_port port) λ number. try (parse_key key) λ secret. ok (number, secret)

  unfoldable pub parse_connect_record : List ℕ → Result BootstrapError (ℕ × List ℕ)
  unfolding parse_port parse_key
  parse_connect_record bytes =
      if any (λ b. is_ascii_whitespace b && not (b == 32)) bytes
      then err malformed_connect_record
      else parse_fields (record_fields (split (λ b. b == 32) bytes))
