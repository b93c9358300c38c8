-- ===== src/Bootstrap/Accepted.antt =====
-- What is accepted from a server, and that the record of a server is.
use mosh_client_rs.Prelude.{
  ◌≡◌, refl, arith, ap, sym, ◌∙◌, ℕ, ◌≤◌, not, ◌&&◌, Option, none, some, List, [], ◌∷◌, map, Result,
  ok, err, try, ltb, ◌==◌, length, retain, any, Result-cases, Bool-cases, inl, inr,
}
use mosh_client_rs.Limits.{max_bootstrap_bytes, max_bootstrap_lines, decoded_key_bytes}
use mosh_client_rs.Bootstrap.Record.{
  BootstrapError, ambiguous_connect_record, is_ascii_whitespace, split, parse_port, parse_key,
  parse_fields, record_fields, parse_connect_record,
}
use mosh_client_rs.Bootstrap.Output.{
  physical_line_count, line_of, looks_like_connect_record, find_candidate, split_inclusive, parse,
  parse_candidate,
}

-- The only line of a list, if it has exactly one; more than one are ambiguous.
abbrev pub only : List (List ℕ) → Result BootstrapError (Option (List ℕ))
only [] = ok none
only (line ∷ []) = ok (some line)
only (line ∷ other ∷ lines) = err ambiguous_connect_record

candidate_kept :
    (line : List ℕ) (raws : List (List ℕ))
    → find_candidate (some line) raws
      ≡ only (line ∷ retain looks_like_connect_record (map line_of raws))
unfolding find_candidate
candidate_kept line [] = refl
candidate_kept line (raw ∷ raws) = elim (Bool-cases (looks_like_connect_record (line_of raw))) [
  | inl looks ↦ rw looks refl
  | inr other ↦ rw other (candidate_kept line raws)
]

-- The record of an output is the only line that looks like one: with two of them it is refused, with
-- none there is no record.
pub find_candidate-only :
    (raws : List (List ℕ))
    → find_candidate none raws ≡ only (retain looks_like_connect_record (map line_of raws))
unfolding find_candidate
find_candidate-only [] = refl
find_candidate-only (raw ∷ raws) = elim (Bool-cases (looks_like_connect_record (line_of raw))) [
  | inl looks ↦ rw looks (candidate_kept (line_of raw) raws)
  | inr other ↦ rw other (find_candidate-only raws)
]

parse_port-bounds :
    (bytes : List ℕ) (port : ℕ) → parse_port bytes ≡ ok port → (1 ≤ port) × (port ≤ 65535)
unfolding parse_port
parse_port-bounds bytes port e = ground arith

module _ (decode_slice : List ℕ → Option (List ℕ)) where
  parse_key-length :
      (encoded key : List ℕ)
      → parse_key decode_slice encoded ≡ ok key
      → length key ≡ decoded_key_bytes
  unfolding parse_key
  parse_key-length encoded key e = ground arith

  -- A port that a socket can be bound to, and a key of the cipher's length.
  abbrev pub IsEndpoint : ℕ × List ℕ → Type 0
  IsEndpoint r = (1 ≤ r.0) × (r.0 ≤ 65535) × (length r.1 ≡ decoded_key_bytes)

  parse_fields-IsEndpoint :
      (o : Option (List ℕ × List ℕ)) (r : ℕ × List ℕ)
      → parse_fields decode_slice o ≡ ok r
      → IsEndpoint r
  parse_fields-IsEndpoint none r e = absurd (ground arith)
  parse_fields-IsEndpoint (some (port, key)) r e = elim (Result-cases (parse_port port)) [
    | inr (x, f) ↦ absurd (ground (arith, e, f))
    | inl (number, f) ↦ elim (Result-cases (parse_key decode_slice key)) [
      | inr (x, g) ↦ absurd (ground (arith, e, f, g))
      | inl (secret, g) ↦
          let (low, high) = parse_port-bounds port number f in
          let size = parse_key-length key secret g in
          let same : r ≡ (number, secret) = ground (arith, e, f, g) in rw same (low, high, size)
    ]
  ]

  record-IsEndpoint :
      (line : List ℕ) (r : ℕ × List ℕ)
      → parse_connect_record decode_slice line ≡ ok r
      → IsEndpoint r
  unfolding parse_connect_record
  record-IsEndpoint line r e =
      elim (Bool-cases (any (λ b. is_ascii_whitespace b && not (b == 32)) line)) [
        | inl spaced ↦ absurd (ground (arith, e, spaced))
        | inr plain ↦
            parse_fields-IsEndpoint (record_fields (split (λ b. b == 32) line)) r
              (ground (arith, e, plain))
      ]

  -- What an accepted output is: within the limits, with exactly one line that looks like a record,
  -- which parses.
  pub record IsAccepted (output : List ℕ) (r : ℕ × List ℕ) : Type 0 where
    pub endpoint : IsEndpoint r
    pub size_le : length output ≤ max_bootstrap_bytes
    pub lines_le : physical_line_count output ≤ max_bootstrap_lines
    pub line : List ℕ
    pub only_line :
        retain looks_like_connect_record (map line_of (split_inclusive output)) ≡ line ∷ []
    pub parses : parse_connect_record decode_slice line ≡ ok r

  only-some :
      (lines : List (List ℕ)) (line : List ℕ) → only lines ≡ ok (some line) → lines ≡ line ∷ []
  only-some [] line e = absurd (ground (arith, e))
  only-some (l ∷ []) line e = ap (λ (x : List ℕ). x ∷ []) (ground (arith, e))
  only-some (l ∷ m ∷ ls) line e = absurd (ground (arith, e))

  within_limits :
      (output : List ℕ) (r : ℕ × List ℕ)
      → parse decode_slice output ≡ ok r
      → (length output ≤ max_bootstrap_bytes)
        × (physical_line_count output ≤ max_bootstrap_lines)
        × (try (find_candidate none (split_inclusive output)) (λ c. parse_candidate decode_slice c)
            ≡ ok r)
  unfolding parse
  within_limits output r e = elim (Bool-cases (ltb max_bootstrap_bytes (length output))) [
    | inl big ↦ absurd (ground (arith, e, big))
    | inr small ↦ elim (Bool-cases (ltb max_bootstrap_lines (physical_line_count output))) [
      | inl many ↦ absurd (ground (arith, e, small, many))
      | inr few ↦ (ground (arith, small), ground (arith, few), ground (arith, e, small, few))
    ]
  ]

  -- An output that is accepted is within the limits of bytes and lines, exactly one of its lines
  -- looks like a connect record, and that record gives a port from 1 to 65535 and a key of 16 bytes.
  pub parse-IsAccepted :
      (output : List ℕ) (r : ℕ × List ℕ) → parse decode_slice output ≡ ok r → IsAccepted output r
  parse-IsAccepted output r e =
      let (size, lines, found) = within_limits output r e in
      elim (Result-cases (find_candidate none (split_inclusive output))) [
        | inr (x, f) ↦ absurd (ground (arith, found, f))
        | inl (none, f) ↦ absurd (ground (arith, found, f))
        | inl (some candidate, f) ↦
            let p : parse_connect_record decode_slice candidate ≡ ok r = ground (arith, found, f) in
            record {
              endpoint = record-IsEndpoint candidate r p;
              size_le = size;
              lines_le = lines;
              line = candidate;
              only_line =
                  only-some _ candidate (sym (find_candidate-only (split_inclusive output)) ∙ f);
              parses = p;
            }
      ]
