-- ===== src/Bootstrap/RoundTrip.antt =====
-- A record as the server writes it is read back.
use mosh_client_rs.Prelude.{
  suc, ◌+◌, ◌*◌, ◌^◌, All, ◌≡◌, refl, arith, ap, ◌∙◌, ℕ, ◌≤◌, false, not, ◌&&◌, Option, some, List,
  [], ◌∷◌, ◌++◌, ok, ◌==◌, length, any,
}
use mosh_client_rs.Limits.{encoded_key_bytes, decoded_key_bytes}
use mosh_client_rs.Bootstrap.Record.{
  mosh_word, connect_word, is_ascii_whitespace, is_ascii_digit, split, port_value, parse_port,
  parse_key, parse_fields, record_fields, parse_connect_record,
}

-- `MOSH CONNECT <port> <key>`.
abbrev pub written : (port key : List ℕ) → List ℕ
written port key = mosh_word ++ 32 ∷ (connect_word ++ 32 ∷ (port ++ 32 ∷ key))

-- A field without whitespace.
abbrev pub IsField : List ℕ → Type 0
IsField bytes = any is_ascii_whitespace bytes ≡ false

split_field :
    (field rest : List ℕ)
    → any is_ascii_whitespace field ≡ false
    → split (λ b. b == 32) (field ++ 32 ∷ rest) ≡ field ∷ split (λ b. b == 32) rest
split_field [] rest h = refl
split_field (b ∷ field) rest h = ground (arith, split_field field rest)

split_last :
    (field : List ℕ)
    → any is_ascii_whitespace field ≡ false
    → split (λ b. b == 32) field ≡ field ∷ []
split_last [] h = refl
split_last (b ∷ field) h = ground (arith, split_last field)

no_other_space :
    (field rest : List ℕ)
    → any is_ascii_whitespace field ≡ false
    → any (λ b. is_ascii_whitespace b && not (b == 32)) (field ++ rest)
      ≡ any (λ b. is_ascii_whitespace b && not (b == 32)) rest
no_other_space [] rest h = refl
no_other_space (b ∷ field) rest h = ground (arith, no_other_space field rest)

no_other_space_last :
    (field : List ℕ)
    → any is_ascii_whitespace field ≡ false
    → any (λ b. is_ascii_whitespace b && not (b == 32)) field ≡ false
no_other_space_last [] h = refl
no_other_space_last (b ∷ field) h = ground (arith, no_other_space_last field)

-- Digits only.
abbrev IsNumeral : List ℕ → Type 0
IsNumeral bytes = any (λ b. not (is_ascii_digit b)) bytes ≡ false

numeral-IsField : (bytes : List ℕ) → IsNumeral bytes → IsField bytes
numeral-IsField [] h = refl
numeral-IsField (b ∷ bytes) h = ground (arith, numeral-IsField bytes)

parse_port-numeral :
    (port : List ℕ)
    → IsNumeral port
    → length port ≤ 5
    → 1 ≤ port_value 0 port
    → port_value 0 port ≤ 65535
    → parse_port port ≡ ok (port_value 0 port)
unfolding parse_port
parse_port-numeral port digits short low high = ground arith

written_split :
    (port key : List ℕ)
    → IsField port
    → IsField key
    → split (λ b. b == 32) (written port key) ≡ mosh_word ∷ connect_word ∷ port ∷ key ∷ []
written_split port key p k =
    split_field mosh_word (connect_word ++ 32 ∷ (port ++ 32 ∷ key)) refl
    ∙ ap (◌∷◌ mosh_word) (
        split_field connect_word (port ++ 32 ∷ key) refl
        ∙ ap (◌∷◌ connect_word) (split_field port key p ∙ ap (◌∷◌ port) (split_last key k)))

written_spaces :
    (port key : List ℕ)
    → IsField port
    → IsField key
    → any (λ b. is_ascii_whitespace b && not (b == 32)) (written port key) ≡ false
written_spaces port key p k = no_other_space port (32 ∷ key) p ∙ no_other_space_last key k

-- The number that decimal digits stand for, the most significant one first.
abbrev pub decimal : (digits : List ℕ) → ℕ
decimal [] = 0
decimal (d ∷ ds) = d * 10 ^ length ds + decimal ds

abbrev pub ascii : (digits : List ℕ) → List ℕ
ascii [] = []
ascii (d ∷ ds) = (48 + d) ∷ ascii ds

length-ascii : (ds : List ℕ) → length (ascii ds) ≡ length ds
length-ascii [] = refl
length-ascii (d ∷ ds) = ap suc (length-ascii ds)

ascii-IsNumeral : (ds : List ℕ) → All (λ d. d ≤ 9) ds → IsNumeral (ascii ds)
ascii-IsNumeral [] h = refl
ascii-IsNumeral (d ∷ ds) h = ground (arith, h.0, ascii-IsNumeral ds h.1)

pow_suc : (k : ℕ) → 10 * 10 ^ k ≡ 10 ^ suc k
pow_suc k = grind arith

horner : (n d k v : ℕ) → (n * 10 + d) * k + v ≡ n * (10 * k) + (d * k + v)
horner n d k v = grind arith

port_value-ascii : (n : ℕ) (ds : List ℕ) → port_value n (ascii ds) ≡ n * 10 ^ length ds + decimal ds
port_value-ascii n [] = omega arith
port_value-ascii n (d ∷ ds) =
    ap (λ (m : ℕ). port_value m (ascii ds)) (omega arith)
    ∙ port_value-ascii (n * 10 + d) ds
    ∙ horner n d (10 ^ length ds) (decimal ds)
    ∙ ap (λ (m : ℕ). n * m + (d * 10 ^ length ds + decimal ds)) (pow_suc (length ds))

parse_connect_record-numeral :
    (decode_slice : List ℕ → Option (List ℕ)) (port key secret : List ℕ)
    → IsNumeral port
    → length port ≤ 5
    → 1 ≤ port_value 0 port
    → port_value 0 port ≤ 65535
    → IsField key
    → length key ≡ encoded_key_bytes
    → decode_slice key ≡ some secret
    → length secret ≡ decoded_key_bytes
    → parse_connect_record decode_slice (written port key) ≡ ok (port_value 0 port, secret)
unfolding parse_connect_record
parse_connect_record-numeral decode_slice port key secret digits short low high field size decodes
      full =
    rw
      (
        written_spaces port key (numeral-IsField port digits) field,
        written_split port key (numeral-IsField port digits) field,
      )
      (ap (parse_fields decode_slice) (fields port key digits low size) ∙ ends)
  where
    keyed : parse_key decode_slice key ≡ ok secret
    keyed = unfold parse_key in ground (arith, size, decodes, full)

    ends : parse_fields decode_slice (some (port, key)) ≡ ok (port_value 0 port, secret)
    ends = rw (parse_port-numeral port digits short low high, keyed) refl

    fields :
        (port key : List ℕ)
        → IsNumeral port
        → 1 ≤ port_value 0 port
        → length key ≡ encoded_key_bytes
        → record_fields (mosh_word ∷ connect_word ∷ port ∷ key ∷ []) ≡ some (port, key)
    fields [] key d l s = absurd (omega (arith, l))
    fields (b ∷ bs) [] d l s = absurd (omega (arith, s))
    fields (b ∷ bs) (c ∷ cs) d l s = refl

ascii-decimal : (digits : List ℕ) → port_value 0 (ascii digits) ≡ decimal digits
ascii-decimal digits = port_value-ascii 0 digits ∙ omega arith

-- A record that is written with at most five decimal digits, of a port from 1 to 65535, and a key of
-- 22 bytes without whitespace, of which the decoder makes 16 bytes, is read back as that port and the
-- decoded key.
pub parse_connect_record-written :
    (decode_slice : List ℕ → Option (List ℕ)) (digits key secret : List ℕ)
    → All (λ d. d ≤ 9) digits
    → length digits ≤ 5
    → 1 ≤ decimal digits
    → decimal digits ≤ 65535
    → IsField key
    → length key ≡ encoded_key_bytes
    → decode_slice key ≡ some secret
    → length secret ≡ decoded_key_bytes
    → parse_connect_record decode_slice (written (ascii digits) key) ≡ ok (decimal digits, secret)
parse_connect_record-written decode_slice digits key secret decimals short low high field size
      decodes full =
    let value = ascii-decimal digits in
    parse_connect_record-numeral decode_slice (ascii digits) key secret
      (ascii-IsNumeral digits decimals) (omega (arith, length-ascii digits, short))
      (omega (arith, value, low)) (omega (arith, value, high)) field size decodes full
    ∙ ap (λ (port : ℕ). ok (port, secret)) value
